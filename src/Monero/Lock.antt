-- ===== src/Monero/Lock.antt =====
-- src/lib/monero/verify-lock.ts: `verifyXmrLocked`, which the encrypted signature waits for. A
-- result of `err` is an exception that the function does not catch.
use miradex_client.Prelude.{
  ℕ, suc, Bool, true, false, not, Option, none, some, List, [], ◌∷◌, length, ltb, leb, ◌==◌,
  get_elem?, if◌then◌else◌,
}
use miradex_client.Errors.Codes.{Result, ok, err}
use miradex_client.Presign.{◌>>=◌}
use miradex_client.Refund.Der.{Bytes}
use miradex_client.Monero.Scalars.{Text, hex_to_scalar}
use miradex_client.Monero.{
  TxOutput, MoneroTxJson, FetchedTransaction, Node, same_text, fetch_transaction,
  fetch_transaction_quorum,
}
use miradex_client.Monero.Scanner.{
  Curve, extract_tx_pub_key, output_key, decrypt_amount, point_hex, one_time_key, secret_of,
}

-- The texts of `reason`.
pub data Reason : Type 0 where
  not_fetched few_confirmations timelocked no_tx_pub_key tx_key_mismatch : Reason
  cryptographic_error invalid_spend_key amount_too_low no_output : Reason

pub record XmrLockVerification : Type 0 where
  pub verified : Bool
  pub amount : ℕ
  pub confirmations : Option ℕ
  pub reason : Option Reason
  pub retryable : Bool

pub record VerifyXmrLockParams : Type 0 where
  pub view_key : Text
  pub spend_pub : Text
  pub expected_amount : ℕ
  pub min_confirmations : Option ℕ
  pub monerod : Option Node
  pub monerod_nodes : Option (List Node)
  pub monerod_quorum : Option ℕ
  pub tx_key : Option Text

abbrev pub or_default : Option ℕ → ℕ → ℕ
or_default none n = n
or_default (some m) n = m

abbrev pub min_of : VerifyXmrLockParams → ℕ
min_of p = or_default p.min_confirmations 10

abbrev pub failed : (amount : ℕ) → (confirmations : Option ℕ) → Reason → XmrLockVerification
failed amount confirmations reason = record {
  verified = false;
  amount = amount;
  confirmations = confirmations;
  reason = some reason;
  retryable = false;
}

abbrev pub retry_later : (confirmations : Option ℕ) → Reason → XmrLockVerification
retry_later confirmations reason = record (failed 0 confirmations reason) { retryable = true }

abbrev pub locked : (amount : ℕ) → (confirmations : Option ℕ) → XmrLockVerification
locked amount confirmations = record {
  verified = true;
  amount = amount;
  confirmations = confirmations;
  reason = none;
  retryable = false;
}

-- `unlock_time !== undefined && unlock_time !== 0`
abbrev pub is_timelocked : Option ℕ → Bool
is_timelocked none = false
is_timelocked (some n) = not (n == 0)

-- `confirmations < minConfirmations`, which is false where the node gave no number.
abbrev pub is_below : Option ℕ → ℕ → Bool
is_below none least = false
is_below (some n) least = ltb n least

module _ (stagenet_nodes : List Node) where
  -- The single-node path: the nodes one after the other.
  abbrev pub fallback_nodes : VerifyXmrLockParams → List Node
  fallback_nodes p = elim p.monerod_nodes [
    | some nodes ↦ nodes
    | none ↦ elim p.monerod [ none ↦ stagenet_nodes | some node ↦ node ∷ [] ]
  ]

  unfoldable pub fetch_lock : VerifyXmrLockParams → Result FetchedTransaction
  fetch_lock p = elim p.monerod_nodes [
    | none ↦ fetch_transaction (fallback_nodes p)
    | some nodes ↦
        if leb (or_default p.monerod_quorum 2) (length nodes)
        then fetch_transaction_quorum nodes (or_default p.monerod_quorum 2)
        else fetch_transaction (fallback_nodes p)
  ]

module _ {Point : Type 0} (c : Curve Point) where
  -- With Alice's key r: `none` if R is not r * G, else 8 * (r * (v * G)).
  unfoldable pub secret_by_tx_key :
      (view_key tx_key : Text) → (r_bytes : Bytes) → Result (Option Bytes)
  secret_by_tx_key view_key tx_key r_bytes = do
    r ← hex_to_scalar tx_key
    expected_r ← c.multiply c.base r
    if not (same_text (point_hex c expected_r) (c.bytes_to_hex r_bytes)) then ok none else (do
      v ← hex_to_scalar view_key
      view_pub ← c.multiply c.base v
      shared ← c.multiply view_pub r
      ok (some (c.to_bytes (c.clear_cofactor shared))))

  unfoldable pub secret_by_view_key : (view_key : Text) → (r_bytes : Bytes) → Result (Option Bytes)
  secret_by_view_key view_key r_bytes = do d8 ← secret_of c view_key r_bytes; ok (some d8)

  -- `if (txKeyHex)`: an empty text counts as none.
  abbrev pub shared_secret :
      (view_key : Text) → Option Text → (r_bytes : Bytes) → Result (Option Bytes)
  shared_secret view_key none r_bytes = secret_by_view_key view_key r_bytes
  shared_secret view_key (some []) r_bytes = secret_by_view_key view_key r_bytes
  shared_secret view_key (some (d ∷ ds)) r_bytes = secret_by_tx_key view_key (d ∷ ds) r_bytes

  module _ (p : VerifyXmrLockParams) (ecdh_info : List Text) (confirmations : Option ℕ)
      (d8 : Bytes) where
    -- The output that matches decides.
    unfoldable pub decide : ℕ → Result XmrLockVerification
    decide i = do
      amount ← decrypt_amount c d8 i (get_elem? ecdh_info i)
      ok (
          if ltb amount p.expected_amount
          then failed amount confirmations amount_too_low
          else locked amount confirmations)

    abbrev pub find_output : (spend_pub : Point) → ℕ → List TxOutput → Result XmrLockVerification
    find_output spend_pub i [] = ok (failed 0 confirmations no_output)
    find_output spend_pub i (output ∷ outputs) =
        let later = find_output spend_pub (suc i) outputs in
        if is_timelocked output.unlock_time then later else elim (output_key output) [
          | none ↦ later
          | some key ↦ (do
            expected ← one_time_key c d8 spend_pub i
            if same_text expected key then decide i else later)
        ]

  -- What follows the secret, with an exception caught.
  abbrev pub check_secret :
      VerifyXmrLockParams
      → MoneroTxJson
      → (confirmations : Option ℕ) → Result (Option Bytes)
      → Result XmrLockVerification
  check_secret p tx confirmations (err e) = ok (failed 0 confirmations cryptographic_error)
  check_secret p tx confirmations (ok none) = ok (failed 0 confirmations tx_key_mismatch)
  check_secret p tx confirmations (ok (some d8)) = elim (c.from_hex p.spend_pub) [
    | err e ↦ ok (failed 0 confirmations invalid_spend_key)
    | ok spend_pub ↦ find_output p tx.rct_signatures.ecdh_info confirmations d8 spend_pub 0 tx.vout
  ]

  abbrev pub check_key :
      VerifyXmrLockParams
      → MoneroTxJson
      → (confirmations : Option ℕ) → Option Bytes
      → Result XmrLockVerification
  check_key p tx confirmations none = ok (failed 0 confirmations no_tx_pub_key)
  check_key p tx confirmations (some r_bytes) =
      check_secret p tx confirmations (shared_secret p.view_key p.tx_key r_bytes)

  unfoldable pub check_fetched :
      VerifyXmrLockParams → FetchedTransaction → Result XmrLockVerification
  check_fetched p fetched =
      if is_below fetched.confirmations (min_of p)
      then ok (retry_later fetched.confirmations few_confirmations)
      else if is_timelocked fetched.tx_json.unlock_time
      then ok (failed 0 fetched.confirmations timelocked)
      else check_key p fetched.tx_json fetched.confirmations
          (extract_tx_pub_key fetched.tx_json.extra)

  unfoldable pub verify_xmr_locked :
      (stagenet_nodes : List Node) → VerifyXmrLockParams → Result XmrLockVerification
  verify_xmr_locked stagenet_nodes p = elim (fetch_lock stagenet_nodes p) [
    | err e ↦ ok (retry_later (some 0) not_fetched)
    | ok fetched ↦ check_fetched p fetched
  ]
