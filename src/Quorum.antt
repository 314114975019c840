-- ===== src/Quorum.antt =====
-- src/blockchain/quorum-provider.ts: reads that need the agreement of several providers.
-- The settled promises are a list with one entry for each provider. A JavaScript `Map` is an
-- association list in the order of insertion. Keys that join fields by ":" are the tuples of the
-- fields. Heights and values are natural numbers; an answer that is not finite is `none`.
pub mod Counting
pub mod Sorting
pub mod Agreement
pub mod Median
mod Tests
use Prim.Native.String.{String}
use miradex_client.Prelude.{
  ℤ, same_int, ℕ, zero, suc, ◌+◌, ◌-◌, ◌/◌, ◌≡◌, Bool, true, false, ◌&&◌, ◌||◌, Option, none, some,
  List, [], ◌∷◌, map, ltb, leb, ◌==◌, str_eq, if◌then◌else◌, length, get_or, keep, any, count_if,
}
use miradex_client.Errors.Codes.{
  Result, ok, err, verification_error, e_quorum_impossible, e_quorum_disagree,
}

pub record Utxo : Type 0 where
  pub txid : String
  pub vout : ℕ
  pub value : ℕ
  pub confirmations : ℕ
  pub height : Option ℕ

-- `ScriptHashHistoryEntry`: Electrum's heights 0 and −1 are those of unconfirmed transactions.
pub record HistoryEntry : Type 0 where
  pub tx_hash : String
  pub height : ℤ

-- `PromiseSettledResult`
pub data Settled (A : Type 0) : Type 0 where
  fulfilled : A → Settled A
  rejected : Settled A

abbrev pub fulfilled_values : {A : Type 0} → List (Settled A) → List A
fulfilled_values [] = []
fulfilled_values (fulfilled a ∷ rest) = a ∷ fulfilled_values rest
fulfilled_values (rejected ∷ rest) = fulfilled_values rest

-- A counter for each key, with the first value that came with it.
module _ {A : Type 0} (same : A → A → Bool) where
  -- `counts.get(key)`, and one more: a new key goes to the end.
  pub bump : A → List (A × ℕ) → List (A × ℕ)
  bump a [] = (a, 1) ∷ []
  bump a ((b, n) ∷ rest) = if same b a then (b, n + 1) ∷ rest else (b, n) ∷ bump a rest

  -- `seenInThisList`: the first of each key.
  pub distinct_from : List A → List A → List A
  distinct_from seen [] = []
  distinct_from seen (a ∷ rest) =
      let later = distinct_from seen rest in
      let kept = a ∷ distinct_from (a ∷ seen) rest in
      if any (λ b. same b a) seen then later else kept

  pub tally_list : List A → List (A × ℕ) → List (A × ℕ)
  tally_list [] counts = counts
  tally_list (a ∷ rest) counts = tally_list rest (bump a counts)

  -- The two nested loops of `pickQuorumUtxos` and `pickQuorumHistory`.
  pub tally : List (List A) → List (A × ℕ) → List (A × ℕ)
  tally [] counts = counts
  tally (l ∷ rest) counts = tally rest (tally_list (distinct_from [] l) counts)

  pub accepted : ℕ → List (A × ℕ) → List A
  accepted quorum [] = []
  accepted quorum ((a, n) ∷ rest) =
      if leb quorum n then a ∷ accepted quorum rest else accepted quorum rest

  unfoldable pub pick_accepted : ℕ → List (Settled (List A)) → List A
  unfolding bump distinct_from tally_list tally accepted
  pick_accepted quorum settled = accepted quorum (tally (fulfilled_values settled) [])

abbrev pub same_utxo : Utxo → Utxo → Bool
same_utxo u v = str_eq u.txid v.txid && u.vout == v.vout && u.value == v.value

abbrev pub same_entry : HistoryEntry → HistoryEntry → Bool
same_entry g h = str_eq g.tx_hash h.tx_hash && same_int g.height h.height

unfoldable pub pick_quorum_utxos : ℕ → List (Settled (List Utxo)) → List Utxo
unfolding pick_accepted
pick_quorum_utxos quorum settled = pick_accepted same_utxo quorum settled

unfoldable pub pick_quorum_history : ℕ → List (Settled (List HistoryEntry)) → List HistoryEntry
unfolding pick_accepted
pick_quorum_history quorum settled = pick_accepted same_entry quorum settled

first_agreed : ℕ → List (String × ℕ) → Result String
first_agreed quorum [] = err (verification_error e_quorum_disagree)
first_agreed quorum ((value, n) ∷ rest) =
    if leb quorum n then ok value else first_agreed quorum rest

unfoldable pub pick_quorum_string : ℕ → List (Settled String) → Result String
unfolding first_agreed tally_list bump
pick_quorum_string quorum settled =
    first_agreed quorum (tally_list str_eq (fulfilled_values settled) [])

-- `sort((a, b) => a - b)`: the ascending order, which is one list whatever the algorithm.
insert_sorted : ℕ → List ℕ → List ℕ
insert_sorted a [] = a ∷ []
insert_sorted a (b ∷ rest) = if leb a b then a ∷ b ∷ rest else b ∷ insert_sorted a rest

unfoldable pub sort : List ℕ → List ℕ
unfolding insert_sorted
sort [] = []
sort (a ∷ rest) = insert_sorted a (sort rest)

-- `values.filter(Number.isFinite)`
abbrev pub finite_values : List (Option ℕ) → List ℕ
finite_values [] = []
finite_values (none ∷ rest) = finite_values rest
finite_values (some n ∷ rest) = n ∷ finite_values rest

unfoldable pub median : List ℕ → ℕ
unfolding sort
median values = get_or (sort values) (length values / 2) 0

-- `Math.abs(v - median) <= 1`
abbrev pub near : ℕ → ℕ → Bool
near m v = leb v (m + 1) && leb m (v + 1)

unfoldable pub pick_quorum_number : ℕ → List (Settled (Option ℕ)) → Result ℕ
pick_quorum_number quorum settled =
    let values = finite_values (fulfilled_values settled) in
    if ltb (length values) quorum
    then err (verification_error e_quorum_disagree)
    else if leb quorum (count_if (near (median values)) values)
    then ok (median values)
    else err (verification_error e_quorum_disagree)

unfoldable pub estimate_fee : List (Settled (Option ℕ)) → Result ℕ
estimate_fee settled =
    let nums = finite_values (fulfilled_values settled) in
    if length nums == 0 then err (verification_error e_quorum_disagree) else ok (median nums)

-- The providers are asked in turn until one relays; with it how many were asked.
unfoldable pub broadcast_transaction : List (Settled String) → Result String × ℕ
broadcast_transaction [] = (err (verification_error e_quorum_disagree), 0)
broadcast_transaction (fulfilled txid ∷ rest) = (ok txid, 1)
broadcast_transaction (rejected ∷ rest) =
    let later = broadcast_transaction rest in (later.0, later.1 + 1)

-- `createQuorumProvider` refuses a quorum above the number of providers.
unfoldable pub create_quorum_provider : {P : Type 0} → List P → ℕ → Result (List P × ℕ)
create_quorum_provider providers quorum =
    if ltb (length providers) quorum
    then err (verification_error e_quorum_impossible)
    else ok (providers, quorum)
