-- ===== src/Quorum/Agreement.antt =====
-- What the reads of src/blockchain/quorum-provider.ts guarantee.
use Prim.Native.String.{String}
use text.Mathlib.TextEquality.{eq_iff}
use miradex_client.Prelude.{
  ℕ, suc, ◌+◌, ◌-◌, ◌≤◌, ◌<◌, ◌≡◌, refl, ap, ◌⊎◌, inl, inr, Bool, true, false, List, [], ◌∷◌, arith,
  leb, str_eq, str_eq_refl, count_if, length, Bool-cases,
}
use miradex_client.Errors.Codes.{Result, ok, err, is_ok}
use miradex_client.Quorum.{
  Settled, fulfilled, rejected, fulfilled_values, Utxo, HistoryEntry, same_utxo, same_entry,
  tally_list, pick_quorum_utxos, pick_quorum_history, first_agreed, pick_quorum_string,
  broadcast_transaction,
}
use miradex_client.Quorum.Counting.{
  IsSame, tally_list-HasDistinctKeys, count_of_fresh, holds, votes, count_of, is_fresh,
  HasDistinctKeys, count_of-tally_list, pick_accepted_iff,
}

str_eq-IsSame : IsSame str_eq
str_eq-IsSame = record {
  same_refl = str_eq_refl;
  same_symm = λ a b h. ground (arith, eq_iff a b, eq_iff b a);
  same_trans = λ a b c h k. ground (arith, eq_iff a b, eq_iff b c, eq_iff a c);
}

pub same_utxo-IsSame : IsSame same_utxo
same_utxo-IsSame = record {
  same_refl = λ a. ground (arith, str_eq_refl a.txid);
  same_symm = λ a b h. ground (arith, eq_iff a.txid b.txid, eq_iff b.txid a.txid);
  same_trans =
      λ a b c h k. ground (arith, eq_iff a.txid b.txid, eq_iff b.txid c.txid, eq_iff a.txid c.txid);
}

pub same_entry-IsSame : IsSame same_entry
same_entry-IsSame = record {
  same_refl = λ a. ground (arith, str_eq_refl a.tx_hash);
  same_symm = λ a b h. ground (arith, eq_iff a.tx_hash b.tx_hash, eq_iff b.tx_hash a.tx_hash);
  same_trans = λ a b c h k.
      ground
        (arith, eq_iff a.tx_hash b.tx_hash, eq_iff b.tx_hash c.tx_hash, eq_iff a.tx_hash c.tx_hash);
}

-- With a quorum of at least one, `listUnspent` and `getHistory` return an output, or an entry,
-- exactly if at least `quorum` of the lists that providers delivered hold its key. An output is
-- known by its transaction, its place and its value, an entry by its hash and its height; a
-- provider that repeats an item in its list counts once.
pub pick_quorum_iff :
    (quorum : ℕ)
    → 1 ≤ quorum
    → ((u : Utxo) (settled : List (Settled (List Utxo)))
        → holds same_utxo u (pick_quorum_utxos quorum settled)
          ≡ leb quorum (votes same_utxo u (fulfilled_values settled)))
      × ((h : HistoryEntry) (settled : List (Settled (List HistoryEntry)))
          → holds same_entry h (pick_quorum_history quorum settled)
            ≡ leb quorum (votes same_entry h (fulfilled_values settled)))
unfolding pick_quorum_utxos pick_quorum_history
pick_quorum_iff quorum q = (
  λ u settled. pick_accepted_iff same_utxo same_utxo-IsSame u quorum settled q,
  λ h settled. pick_accepted_iff same_entry same_entry-IsSame h quorum settled q,
)

-- The settled promises of the providers, each marked by whether the provider is honest.
abbrev pub answers : {A : Type 0} → List (Bool × Settled A) → List (Settled A)
answers [] = []
answers ((honest, s) ∷ rest) = s ∷ answers rest

abbrev pub liars : {A : Type 0} → List (Bool × Settled A) → ℕ
liars [] = 0
liars ((true, s) ∷ rest) = liars rest
liars ((false, s) ∷ rest) = suc (liars rest)

abbrev pub HonestAnswer : {A : Type 0} → (A → Bool) → List (Bool × Settled A) → Type 0
HonestAnswer p [] = ⊥
HonestAnswer p ((honest, fulfilled a) ∷ rest) =
    ((honest ≡ true) × (p a ≡ true)) ⊎ HonestAnswer p rest
HonestAnswer p ((honest, rejected) ∷ rest) = HonestAnswer p rest

outvoted :
    {A : Type 0} (p : A → Bool) (polled : List (Bool × Settled A))
    → liars polled < count_if p (fulfilled_values (answers polled))
    → HonestAnswer p polled
outvoted p [] h = omega arith
outvoted p ((true, fulfilled a) ∷ rest) h = elim (Bool-cases (p a)) [
  | inl e ↦ inl (refl, e)
  | inr e ↦ inr (outvoted p rest (ground arith))
]
outvoted p ((false, fulfilled a) ∷ rest) h = inr (outvoted p rest (ground arith))
outvoted p ((true, rejected) ∷ rest) h = outvoted p rest h
outvoted p ((false, rejected) ∷ rest) h = outvoted p rest (omega arith)

-- If fewer providers than the quorum are dishonest, an honest provider delivered each output
-- that `listUnspent` returns.
pub pick_quorum_utxos_honest :
    (quorum : ℕ) (polled : List (Bool × Settled (List Utxo))) (u : Utxo)
    → liars polled < quorum
    → holds same_utxo u (pick_quorum_utxos quorum (answers polled)) ≡ true
    → HonestAnswer (holds same_utxo u) polled
pick_quorum_utxos_honest quorum polled u few e =
    let enough = (pick_quorum_iff quorum (omega arith)).0 u (answers polled) in
    outvoted (holds same_utxo u) polled (ground (arith, enough))

first_agreed_ok :
    (quorum : ℕ) (counts : List (String × ℕ)) {v : String}
    → HasDistinctKeys str_eq counts
    → first_agreed quorum counts ≡ ok v
    → quorum ≤ count_of str_eq v counts
unfolding first_agreed count_of is_fresh
first_agreed_ok quorum [] d e = cc
first_agreed_ok quorum ((w, n) ∷ rest) {v} d e = elim (Bool-cases (leb quorum n)) [
  | inl enough ↦ ground (arith, str_eq_refl w)
  | inr few ↦
      let later = first_agreed_ok quorum rest {v = v} d.1 (ground arith) in
      ground (arith, later, count_of_fresh str_eq str_eq-IsSame v w rest d.0)
]

first_agreed_err :
    (quorum : ℕ) (counts : List (String × ℕ)) (v : String)
    → 1 ≤ quorum
    → is_ok (first_agreed quorum counts) ≡ false
    → count_of str_eq v counts < quorum
unfolding first_agreed count_of
first_agreed_err quorum [] v q e = omega arith
first_agreed_err quorum ((w, n) ∷ rest) v q e = ground (arith, first_agreed_err quorum rest v q)

abbrev pub delivered_by : String → List (Settled String) → ℕ
delivered_by v settled = count_if (λ w. str_eq w v) (fulfilled_values settled)

-- The answer of a vote on a text: one that enough providers delivered, or an exception where no
-- text has so many.
abbrev pub IsAgreed : ℕ → List (Settled String) → Result String → Type 0
IsAgreed quorum settled (ok v) = quorum ≤ delivered_by v settled
IsAgreed quorum settled (err e) = (v : String) → delivered_by v settled < quorum

-- With a quorum of at least one, `getTransaction` returns a text that at least `quorum` providers
-- delivered, and throws only if no text was delivered by so many.
pub pick_quorum_string-IsAgreed :
    (quorum : ℕ) (settled : List (Settled String))
    → 1 ≤ quorum
    → IsAgreed quorum settled (pick_quorum_string quorum settled)
unfolding pick_quorum_string count_of
pick_quorum_string-IsAgreed quorum settled q =
    at_answer (first_agreed quorum (tally_list str_eq (fulfilled_values settled) [])) refl
  where
    at_answer :
        (r : Result String)
        → first_agreed quorum (tally_list str_eq (fulfilled_values settled) []) ≡ r
        → IsAgreed quorum settled r
    at_answer (ok v) e =
        let values = fulfilled_values settled in
        let distinct = tally_list-HasDistinctKeys str_eq str_eq-IsSame values [] tt in
        omega (
          arith,
          first_agreed_ok quorum (tally_list str_eq values []) {v = v} distinct e,
          count_of-tally_list str_eq str_eq-IsSame v values [],
        )
    at_answer (err x) e = λ v.
        let values = fulfilled_values settled in
        omega (
          arith,
          first_agreed_err quorum (tally_list str_eq values []) v q (ap is_ok e),
          count_of-tally_list str_eq str_eq-IsSame v values [],
        )

abbrev pub IsFirstRelay : List (Settled String) → ℕ → String → Type 0
IsFirstRelay [] n txid = ⊥
IsFirstRelay (fulfilled t ∷ rest) n txid = (n ≡ 1) × (t ≡ txid)
IsFirstRelay (rejected ∷ rest) n txid = (0 < n) × IsFirstRelay rest (n - 1) txid

-- What a broadcast tells: the answer of the first provider that relays, with the number of
-- those asked up to it, or an exception after all were asked and refused.
abbrev pub IsRelay : List (Settled String) → Result String × ℕ → Type 0
IsRelay settled (ok txid, n) = IsFirstRelay settled n txid
IsRelay settled (err e, n) = (fulfilled_values settled ≡ []) × (n ≡ length settled)

IsRelay-later :
    (rest : List (Settled String)) (r : Result String) (n : ℕ)
    → IsRelay rest (r, n)
    → IsRelay (rejected ∷ rest) (r, n + 1)
IsRelay-later rest (ok txid) n h =
    let back : n + 1 - 1 ≡ n = omega arith in (omega arith, rw back h)
IsRelay-later rest (err e) n (none_left, all_asked) = (none_left, omega arith)

-- A broadcast succeeds if any provider relays it: the answer is that of the first one, and no
-- provider behind it is asked. It fails only if every provider was asked and refused.
pub broadcast_transaction-IsRelay :
    (settled : List (Settled String)) → IsRelay settled (broadcast_transaction settled)
unfolding broadcast_transaction
broadcast_transaction-IsRelay [] = (refl, refl)
broadcast_transaction-IsRelay (fulfilled t ∷ rest) = (refl, refl)
broadcast_transaction-IsRelay (rejected ∷ rest) =
    IsRelay-later rest (broadcast_transaction rest).0 (broadcast_transaction rest).1
      (broadcast_transaction-IsRelay rest)
