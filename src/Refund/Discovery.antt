-- ===== src/Refund/Discovery.antt =====
-- src/lib/bitcoin/tx-verify.ts: what a TxCancel that is found on the chain is known to be.
use Prim.Native.String.{String}
use mathlib.Core.Path.{subst}
use miradex_client.Prelude.{
  ◌≡◌, refl, sym, ap, ◌∙◌, inl, inr, ◌≢◌, Bool, true, false, ◌&&◌, List, [], ◌∷◌, Option, none,
  some, ◌==◌, str_eq, length, ltb, arith, Any, Bool-cases,
}
use miradex_client.Errors.Codes.{Result, ok, err}
use miradex_client.Presign.Chains.{bound, returned}
use miradex_client.Refund.Der.{Bytes}
use miradex_client.Refund.{Bitcoin, Tx, TxIn}
use miradex_client.Refund.Cancel.{
  Entry, Refusal, refused, verified, same_bytes, is_output, witness_script_of, script_spends,
  any_spends, spends_from_address, first_other, scan, known_cancel, find_cancel, check_entry,
  discover_and_verify_tx_cancel,
}
use miradex_client.Prelude.{ℤ, above_zero}

same_bytes_eq : (bs cs : Bytes) → same_bytes bs cs ≡ true → bs ≡ cs
same_bytes_eq [] [] e = refl
same_bytes_eq [] (c ∷ cs) e = ground arith
same_bytes_eq (b ∷ bs) [] e = ground arith
same_bytes_eq (b ∷ bs) (c ∷ cs) e =
    cc (head_eq (b == c) (same_bytes bs cs) refl e, same_bytes_eq bs cs (ground arith))
  where
    head_eq : (t u : Bool) → (b == c) ≡ t → (t && u) ≡ true → b ≡ c
    head_eq t u h f = ground arith

-- The input shows a script that has this output.
pub record Shows (b : Bitcoin) (expected : Bytes) (input : TxIn) : Type 0 where
  pub script : Bytes
  pub shown : witness_script_of input ≡ some script
  pub its_output : b.p2wsh_output script ≡ ok (some expected)

is_output-some :
    (o : Option Bytes) (expected : Bytes) → is_output o expected ≡ true → o ≡ some expected
is_output-some none expected e = ground arith
is_output-some (some output) expected e = ap some (same_bytes_eq output expected e)

script_spends-Shows :
    (b : Bitcoin) (expected : Bytes) (input : TxIn) (script : Option Bytes)
    → witness_script_of input ≡ script
    → script_spends b expected script ≡ ok true
    → Shows b expected input
unfolding script_spends
script_spends-Shows b expected input none h e = ground arith
script_spends-Shows b expected input (some script) h e =
    let at_output = bound (b.p2wsh_output script) _ e in
    record {
      script = script;
      shown = h;
      its_output =
          at_output.1
          ∙ ap ok (
              is_output-some at_output.0 expected
                (returned (λ t. t ≡ true) (sym at_output.2) refl));
    }

any_spends-Shows :
    (b : Bitcoin) (expected : Bytes) (ins : List TxIn)
    → any_spends b expected ins ≡ true
    → Any (Shows b expected) ins
any_spends-Shows b expected [] e = ground arith
any_spends-Shows b expected (input ∷ others) e =
    split (script_spends b expected (witness_script_of input)) refl
      (any_spends-Shows b expected others)
  where
    split :
        (r : Result Bool)
        → script_spends b expected (witness_script_of input) ≡ r
        → (any_spends b expected others ≡ true → Any (Shows b expected) others)
        → Any (Shows b expected) (input ∷ others)
    split (err failure) h next_one = absurd (ground arith)
    split (ok true) h next_one = inl (script_spends-Shows b expected input _ refl h)
    split (ok false) h next_one = inr (next_one (ground arith))

-- The transaction of this hexadecimal form has an input that shows the lock address's script.
pub record SpendsLock (b : Bitcoin) (lock_address raw_hex : String) : Type 0 where
  pub tx : Tx
  pub expected : Bytes
  pub decoded : b.from_hex raw_hex ≡ ok tx
  pub lock_script : b.to_output_script lock_address ≡ ok expected
  pub shown : Any (Shows b expected) tx.ins

spends-SpendsLock :
    (b : Bitcoin) (raw_hex lock_address : String) (decoded : Result Tx) (script : Result Bytes)
    → b.from_hex raw_hex ≡ decoded
    → b.to_output_script lock_address ≡ script
    → spends_from_address b raw_hex lock_address ≡ true
    → SpendsLock b lock_address raw_hex
unfolding spends_from_address
spends-SpendsLock b hex lock (err e) script d s h = ground arith
spends-SpendsLock b hex lock (ok tx) (err e) d s h = ground arith
spends-SpendsLock b hex lock (ok tx) (ok expected) d s h = record {
  tx = tx;
  expected = expected;
  decoded = d;
  lock_script = s;
  shown = any_spends-Shows b expected tx.ins (ground arith);
}

-- The transaction is in the history with this height, which is above 0, and its raw form, as it was
-- fetched, spends from the lock.
pub record IsConfirmed (b : Bitcoin) (history : List Entry) (fetched : String → Result String)
    (lock_address hex txid : String) (height : ℤ) : Type 0 where
  pub listed : Any (λ entry. (entry.tx_hash ≡ txid) × (entry.height ≡ height)) history
  pub mined : above_zero height ≡ true
  pub raw : fetched txid ≡ ok hex
  pub spends : SpendsLock b lock_address hex

same_some : {A : Type 0} {a b : A} → ◌≡◌ {A = Option A} (some a) (some b) → b ≡ a
same_some e = ground arith

same_ok_some :
    {A : Type 0} {a b : A} → ◌≡◌ {A = Result (Option A)} (ok (some a)) (ok (some b)) → b ≡ a
same_ok_some e = ground arith

module _ (P : Entry → Type 0) where
  Any-first_other :
      (deposit_txid : String) (history : List Entry) (entry : Entry)
      → first_other deposit_txid history ≡ some entry
      → P entry
      → Any P history
  Any-first_other deposit [] entry e p = ground arith
  Any-first_other deposit (other ∷ history) entry e p =
      elim (Bool-cases (str_eq other.tx_hash deposit)) [
        | inl h ↦ inr (Any-first_other deposit history entry (rw h at e) p)
        | inr h ↦ inl (subst P (same_some (rw h at e)) p)
      ]

  Any-scan :
      (b : Bitcoin) (scanned : String → Result String) (lock_address : String)
      (history : List Entry) (entry : Entry)
      → scan b scanned lock_address history ≡ ok (some entry)
      → P entry
      → Any P history
  Any-scan b scanned lock [] entry e p = ground arith
  Any-scan b scanned lock (other ∷ history) entry e p =
      let at_hex = bound (scanned other.tx_hash) _ e in
      elim (Bool-cases (str_eq at_hex.0 "")) [
        | inl h ↦ inr (Any-scan b scanned lock history entry (rw h at at_hex.2) p)
        | inr h ↦ elim (Bool-cases (spends_from_address b at_hex.0 lock)) [
          | inl f ↦ inl (subst P (same_ok_some (rw (h, f) at at_hex.2)) p)
          | inr f ↦ inr (Any-scan b scanned lock history entry (rw (h, f) at at_hex.2) p)
        ]
      ]

checked_entry :
    (b : Bitcoin) (fetched : String → Result String) (lock_address : String) (history : List Entry)
    (entry : Entry) (hex txid : String) (height : ℤ)
    → check_entry b fetched lock_address (some entry) ≡ ok (verified hex txid height)
    → (entry.tx_hash ≡ txid)
      × (entry.height ≡ height)
      × (above_zero height ≡ true)
      × (fetched txid ≡ ok hex)
      × (spends_from_address b hex lock_address ≡ true)
unfolding check_entry
checked_entry b fetched lock history entry hex txid height e = ground arith

Any-find_cancel :
    (P : Entry → Type 0) (b : Bitcoin) (scanned : String → Result String)
    (lock_address deposit_txid : String) (history : List Entry) (entry : Entry)
    (known : Option Entry)
    → known_cancel deposit_txid history ≡ known
    → find_cancel b scanned lock_address deposit_txid history ≡ ok (some entry)
    → P entry
    → Any P history
Any-find_cancel P b scanned lock deposit history entry none h e p =
    Any-scan P b scanned lock history entry (rw h at e) p
Any-find_cancel P b scanned lock deposit history entry (some first_one) h e p =
    elim (Bool-cases (str_eq first_one.tx_hash "")) [
      | inl f ↦ Any-scan P b scanned lock history entry (rw (h, f) at e) p
      | inr f ↦
          Any-first_other P deposit history first_one (known_is_first deposit history first_one h)
            (subst P (same_ok_some (rw (h, f) at e)) p)
    ]
  where
    known_is_first :
        (txid : String) (entries : List Entry) (found : Entry)
        → known_cancel txid entries ≡ some found
        → first_other txid entries ≡ some found
    known_is_first txid entries found k = ground arith

check_entry-IsConfirmed :
    (b : Bitcoin) (history : List Entry) (scanned fetched : String → Result String)
    (lock_address deposit_txid hex txid : String) (height : ℤ) (entry : Option Entry)
    → find_cancel b scanned lock_address deposit_txid history ≡ ok entry
    → check_entry b fetched lock_address entry ≡ ok (verified hex txid height)
    → IsConfirmed b history fetched lock_address hex txid height
unfolding check_entry
check_entry-IsConfirmed b history scanned fetched lock deposit hex txid height none f e =
    ground arith
check_entry-IsConfirmed b history scanned fetched lock deposit hex txid height (some entry) f e =
    let facts = checked_entry b fetched lock history entry hex txid height e in
    record {
      listed =
          Any-find_cancel (λ other. (other.tx_hash ≡ txid) × (other.height ≡ height)) b scanned lock
            deposit history entry _ refl f (facts.0, facts.1);
      mined = facts.2;
      raw = facts.3;
      spends = spends-SpendsLock b hex lock _ _ refl refl facts.4;
    }

-- A TxCancel that is found is in the lock address's history at a height above 0, it is the
-- transaction that was fetched for its identifier, and one of its inputs shows the lock address's
-- script (see `IsConfirmed`).
pub discover_and_verify_tx_cancel-IsConfirmed :
    (b : Bitcoin) (history : List Entry) (scanned fetched : String → Result String)
    (lock_address deposit_txid hex txid : String) (height : ℤ)
    → discover_and_verify_tx_cancel b (ok history) scanned fetched lock_address deposit_txid
      ≡ ok (verified hex txid height)
    → IsConfirmed b history fetched lock_address hex txid height
unfolding discover_and_verify_tx_cancel
discover_and_verify_tx_cancel-IsConfirmed b history scanned fetched lock deposit hex txid height e =
    elim (Bool-cases (ltb (length history) 2)) [
      | inl h ↦ not_found (rw h at e)
      | inr h ↦
          let at_entry = bound (find_cancel b scanned lock deposit history) _ (rw h at e) in
          check_entry-IsConfirmed b history scanned fetched lock deposit hex txid height at_entry.0
            at_entry.1 at_entry.2
    ]
  where
    not_found : {P : Type 0} {r : Refusal} → ok (refused r) ≡ ok (verified hex txid height) → P
    not_found e = ground arith

-- The first transaction of the history that is not the known deposit is taken for TxCancel: if what
-- is fetched for it does not spend from the lock, no TxCancel is found, whatever follows in the
-- history.
pub stranger_hides_cancel :
    (b : Bitcoin) (scanned fetched : String → Result String) (lock_address deposit_txid : String)
    (stranger : Entry) (history : List Entry) (hex txid raw_hex : String) (height : ℤ)
    → str_eq deposit_txid "" ≡ false
    → first_other deposit_txid history ≡ some stranger
    → str_eq stranger.tx_hash "" ≡ false
    → fetched stranger.tx_hash ≡ ok raw_hex
    → spends_from_address b raw_hex lock_address ≡ false
    → discover_and_verify_tx_cancel b (ok history) scanned fetched lock_address deposit_txid
      ≢ ok (verified hex txid height)
unfolding discover_and_verify_tx_cancel check_entry
stranger_hides_cancel b scanned fetched lock deposit stranger history hex txid raw_hex height known
      first_one named answer spends e =
    ground arith
