-- ===== src/Monero/Locked.antt =====
-- src/lib/monero/verify-lock.ts: what a verified lock is, on the transaction that was fetched.
use miradex_client.Prelude.{
  ℕ, suc, ◌≤◌, ◌≡◌, refl, true, false, Option, none, some, List, [], ◌∷◌, arith, ltb, get_elem?,
  Bool-cases, Option-cases, inl, inr, ◌⊎◌,
}
use miradex_client.Errors.Codes.{Failure, Result, ok, err}
use miradex_client.Presign.Chains.{bound, returned}
use miradex_client.Refund.Der.{Bytes}
use miradex_client.Monero.Scalars.{Text}
use miradex_client.Monero.{TxOutput, FetchedTransaction, Node, same_text}
use miradex_client.Monero.Scanner.{
  Curve, extract_tx_pub_key, output_key, decrypt_amount, one_time_key,
}
use miradex_client.Monero.Lock.{
  is_below, Reason, XmrLockVerification, VerifyXmrLockParams, min_of, failed, retry_later,
  is_timelocked, fetch_lock, shared_secret, decide, find_output, check_secret, check_key,
  check_fetched, verify_xmr_locked,
}
use miradex_client.Monero.Secret.{IsSecret, shared_secret-IsSecret}

-- Some output has the property together with its place, counted from `i`, and those before it are
-- passed over.
abbrev pub FirstAt : (passed P : ℕ → TxOutput → Type 0) → ℕ → List TxOutput → Type 0
FirstAt passed P i [] = ⊥
FirstAt passed P i (output ∷ outputs) =
    P i output ⊎ (passed i output × FirstAt passed P (suc i) outputs)

-- An output is passed over if it is locked for a time, has no key, or goes to another address.
abbrev pub IsPassed :
    {Point : Type 0} → Curve Point → (d8 : Bytes) → (spend_pub : Point) → ℕ → TxOutput → Type 0
IsPassed c d8 spend_pub i output =
    (is_timelocked output.unlock_time ≡ true)
    ⊎ (output_key output ≡ none)
    ⊎ ((key : Text) × (expected : Text) × (output_key output ≡ some key)
        × (one_time_key c d8 spend_pub i ≡ ok expected)
        × (same_text expected key ≡ false))

-- The output at place `i` is free, goes to the shared address, and holds the amount.
pub record IsPaid {Point : Type 0} (c : Curve Point) (p : VerifyXmrLockParams)
    (ecdh_info : List Text) (d8 : Bytes) (spend_pub : Point) (amount : ℕ) (i : ℕ)
    (output : TxOutput) : Type 0 where
  pub free : is_timelocked output.unlock_time ≡ false
  pub key : Text
  pub expected : Text
  pub has_key : output_key output ≡ some key
  pub derived : one_time_key c d8 spend_pub i ≡ ok expected
  pub same : same_text expected key ≡ true
  pub decrypted : decrypt_amount c d8 i (get_elem? ecdh_info i) ≡ ok amount
  pub enough : p.expected_amount ≤ amount

-- The number of confirmations that a transaction came with, unless it came with none, is enough.
abbrev pub IsDeep : (least : ℕ) → Option ℕ → Type 0
IsDeep least none = Unit
IsDeep least (some n) = least ≤ n

pub record IsLocked {Point : Type 0} (c : Curve Point) (p : VerifyXmrLockParams)
    (fetched : FetchedTransaction) (amount : ℕ) : Type 0 where
  pub confirmed : IsDeep (min_of p) fetched.confirmations
  pub free : is_timelocked fetched.tx_json.unlock_time ≡ false
  pub r_bytes : Bytes
  pub has_key : extract_tx_pub_key fetched.tx_json.extra ≡ some r_bytes
  pub d8 : Bytes
  pub secret : IsSecret c p.view_key r_bytes d8 p.tx_key
  pub spend_pub : Point
  pub spends : c.from_hex p.spend_pub ≡ ok spend_pub
  pub paid :
      FirstAt
        (IsPassed c d8 spend_pub)
        (IsPaid c p fetched.tx_json.rct_signatures.ecdh_info d8 spend_pub amount)
        0
        fetched.tx_json.vout

not_below : (least : ℕ) (o : Option ℕ) → is_below o least ≡ false → IsDeep least o
not_below least none h = tt
not_below least (some n) h = ground arith

module _ {P : Type 0} (v : XmrLockVerification) (verified : v.verified ≡ true) where
  not_failed :
      (amount : ℕ) (confirmations : Option ℕ) (r : Reason)
      → ok (failed amount confirmations r) ≡ ok v
      → P
  not_failed amount confirmations r e = ground arith

  not_later : (confirmations : Option ℕ) (r : Reason) → ok (retry_later confirmations r) ≡ ok v → P
  not_later confirmations r e = ground arith

module _ {Point : Type 0} (c : Curve Point) (p : VerifyXmrLockParams) (v : XmrLockVerification)
    (verified : v.verified ≡ true) where
  decide_holds :
      (ecdh_info : List Text) (confirmations : Option ℕ) (d8 : Bytes) (i : ℕ)
      → decide c p ecdh_info confirmations d8 i ≡ ok v
      → (decrypt_amount c d8 i (get_elem? ecdh_info i) ≡ ok v.amount)
        × (p.expected_amount ≤ v.amount)
  unfolding decide
  decide_holds ecdh confirmations d8 i e =
      let decrypted = bound (decrypt_amount c d8 i (get_elem? ecdh i)) _ e in
      elim (Bool-cases (ltb decrypted.0 p.expected_amount)) [
        | inl low ↦ not_failed v verified _ _ _ (rw low at decrypted.2)
        | inr high ↦
            returned
              (λ w.
                (decrypt_amount c d8 i (get_elem? ecdh i) ≡ ok w.amount)
                × (p.expected_amount ≤ w.amount))
              (rw high at decrypted.2) (decrypted.1, ground arith)
      ]

  find_output-FirstAt :
      (ecdh_info : List Text) (confirmations : Option ℕ) (d8 : Bytes) (spend_pub : Point) (i : ℕ)
      (outputs : List TxOutput)
      → find_output c p ecdh_info confirmations d8 spend_pub i outputs ≡ ok v
      → FirstAt (IsPassed c d8 spend_pub) (IsPaid c p ecdh_info d8 spend_pub v.amount) i outputs
  find_output-FirstAt ecdh n d8 spend_pub i [] e = not_failed v verified _ _ _ e
  find_output-FirstAt ecdh n d8 spend_pub i (output ∷ outputs) e =
      let later = find_output-FirstAt ecdh n d8 spend_pub (suc i) outputs in
      elim (Bool-cases (is_timelocked output.unlock_time)) [
        | inl h ↦ inr (inl h, later (rw h at e))
        | inr h ↦ elim (Option-cases (output_key output)) [
          | inl k ↦ inr (inr (inl k), later (rw (h, k) at e))
          | inr found ↦
              let derived = bound (one_time_key c d8 spend_pub i) _ (rw (h, found.1) at e) in
              elim (Bool-cases (same_text derived.0 found.0)) [
                | inr s ↦ inr (
                  inr (inr (found.0, derived.0, found.1, derived.1, s)),
                  later (rw s at derived.2),
                )
                | inl s ↦
                    let holds = decide_holds ecdh n d8 i (rw s at derived.2) in
                    inl (record {
                      free = h;
                      key = found.0;
                      expected = derived.0;
                      has_key = found.1;
                      derived = derived.1;
                      same = s;
                      decrypted = holds.0;
                      enough = holds.1;
                    })
              ]
        ]
      ]

Result-cases :
    {A : Type 0} (r : Result A) → ((failure : Failure) × (r ≡ err failure)) ⊎ ((a : A) × (r ≡ ok a))
Result-cases (err failure) = inl (failure, refl)
Result-cases (ok a) = inr (a, refl)

module _ {Point : Type 0} (c : Curve Point) (p : VerifyXmrLockParams) (v : XmrLockVerification)
    (verified : v.verified ≡ true) where
  check_secret-IsLocked :
      (fetched : FetchedTransaction) (r_bytes : Bytes) (secret : Result (Option Bytes))
      → is_below fetched.confirmations (min_of p) ≡ false
      → is_timelocked fetched.tx_json.unlock_time ≡ false
      → extract_tx_pub_key fetched.tx_json.extra ≡ some r_bytes
      → shared_secret c p.view_key p.tx_key r_bytes ≡ secret
      → check_secret c p fetched.tx_json fetched.confirmations secret ≡ ok v
      → IsLocked c p fetched v.amount
  check_secret-IsLocked fetched r_bytes (err failure) deep free key s e =
      not_failed v verified _ _ _ e
  check_secret-IsLocked fetched r_bytes (ok none) deep free key s e = not_failed v verified _ _ _ e
  check_secret-IsLocked fetched r_bytes (ok (some d8)) deep free key s e =
      elim (Result-cases (c.from_hex p.spend_pub)) [
        | inl failure ↦ not_failed v verified _ _ _ (rw (check_secret, failure.1) at e)
        | inr point ↦ record {
          confirmed = not_below _ _ deep;
          free = free;
          r_bytes = r_bytes;
          has_key = key;
          d8 = d8;
          secret = shared_secret-IsSecret c p.view_key r_bytes d8 p.tx_key s;
          spend_pub = point.0;
          spends = point.1;
          paid =
              find_output-FirstAt c p v verified fetched.tx_json.rct_signatures.ecdh_info
                fetched.confirmations d8 point.0 0 fetched.tx_json.vout
                (rw (check_secret, point.1) at e);
        }
      ]

  check_key-IsLocked :
      (fetched : FetchedTransaction) (key : Option Bytes)
      → is_below fetched.confirmations (min_of p) ≡ false
      → is_timelocked fetched.tx_json.unlock_time ≡ false
      → extract_tx_pub_key fetched.tx_json.extra ≡ key
      → check_key c p fetched.tx_json fetched.confirmations key ≡ ok v
      → IsLocked c p fetched v.amount
  check_key-IsLocked fetched none deep free h e = not_failed v verified _ _ _ e
  check_key-IsLocked fetched (some r_bytes) deep free h e =
      check_secret-IsLocked fetched r_bytes _ deep free h refl e

  check_fetched-IsLocked :
      (fetched : FetchedTransaction)
      → check_fetched c p fetched ≡ ok v
      → IsLocked c p fetched v.amount
  unfolding check_fetched
  check_fetched-IsLocked fetched e = elim (Bool-cases (is_below fetched.confirmations (min_of p))) [
    | inl few ↦ not_later v verified _ _ (rw few at e)
    | inr deep ↦ elim (Bool-cases (is_timelocked fetched.tx_json.unlock_time)) [
      | inl closed ↦ not_failed v verified _ _ _ (rw (deep, closed) at e)
      | inr free ↦ check_key-IsLocked fetched _ deep free refl (rw (deep, free) at e)
    ]
  ]

-- A Monero lock that is verified is a transaction that the nodes answered with: if they gave a
-- number of confirmations it is at least the one asked for; the transaction has no time lock, and
-- the first of its outputs that has no time lock and the one-time key of the shared address holds
-- the amount returned, which is no less than the expected one. The secret behind the key is that of
-- the view key and the transaction's key, which is r * G where Alice's r is given (see `IsLocked`).
-- A node that leaves the number of confirmations out is believed.
pub verify_xmr_locked-IsLocked :
    {Point : Type 0} (c : Curve Point) (stagenet_nodes : List Node) (p : VerifyXmrLockParams)
    (v : XmrLockVerification)
    → verify_xmr_locked c stagenet_nodes p ≡ ok v
    → v.verified ≡ true
    → (fetched : FetchedTransaction) × (fetch_lock stagenet_nodes p ≡ ok fetched)
      × IsLocked c p fetched v.amount
unfolding verify_xmr_locked
verify_xmr_locked-IsLocked c nodes p v e verified = elim (Result-cases (fetch_lock nodes p)) [
  | inl failure ↦ not_later v verified _ _ (rw (verify_xmr_locked, failure.1) at e)
  | inr fetched ↦ (
    fetched.0,
    fetched.1,
    check_fetched-IsLocked c p v verified fetched.0 (rw (verify_xmr_locked, fetched.1) at e),
  )
]
