-- ===== src/Monero/Recovered.antt =====
-- src/lib/monero/verify-lock.ts and the scan of src/atomic-swap/monero-sweep/index.ts: the sweep takes
-- what the check before the release saw.
use miradex_client.Prelude.{ℕ, ◌≡◌, some, List}
use miradex_client.Errors.Codes.{Result, ok}
use miradex_client.Refund.Der.{Bytes}
use miradex_client.Monero.Scalars.{Text}
use miradex_client.Monero.{FetchedTransaction}
use miradex_client.Monero.Scanner.{
  Curve, decrypt_amount, secret_of, ScanParams, ScannedOutput, sweep_scan, real_output, Decrypt,
}
use miradex_client.Monero.Lock.{VerifyXmrLockParams}

-- What the comments say of the WASM code: it decrypts as the code here does.
abbrev pub Agrees : {Point : Type 0} → Curve Point → (view_key : Text) → Decrypt → Type 0
Agrees c view_key decrypt =
    (r_bytes d8 : Bytes) (i : ℕ) (encrypted : Text) (n : ℕ)
    → secret_of c view_key r_bytes ≡ ok d8
    → decrypt_amount c d8 i (some encrypted) ≡ ok n
    → decrypt view_key (c.bytes_to_hex r_bytes) i encrypted ≡ ok n

module _ {Point : Type 0} (c : Curve Point) (p : VerifyXmrLockParams) (fetched : FetchedTransaction)
    (compute_mask : (view_key tx_pub_key : Text) → ℕ → Result Text) (decrypt : Decrypt)
    (agrees : Agrees c p.view_key decrypt) (r_bytes d8 : Bytes)
    (secret : secret_of c p.view_key r_bytes ≡ ok d8) (amount : ℕ) where
  abbrev scan : ScanParams
  scan =
      sweep_scan fetched.tx_json fetched.output_indices p.view_key p.spend_pub compute_mask decrypt

  abbrev IsTaken : List ScannedOutput → Type 0
  IsTaken found = (o : ScannedOutput) × (real_output found ≡ ok o) × (o.amount ≡ amount)
