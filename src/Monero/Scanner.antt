-- ===== src/Monero/Scanner.antt =====
-- src/lib/monero/output-scanner.ts: the key of a transaction, the one-time keys of its outputs, and
-- their amounts. The curve, the hash and the codes of hex are calls of other packages.
use Prim.Native.Nat.{bit_xor}
use miradex_client.Prelude.{
  ℕ, suc, ◌%◌, ◌&&◌, Option, none, some, List, [], ◌∷◌, ◌++◌, map, length, leb, ◌==◌, get_elem?,
  get_or, if◌then◌else◌,
}
use miradex_client.Errors.Codes.{Result, ok, err, plain_error}
use miradex_client.Presign.{◌>>=◌}
use miradex_client.Refund.Der.{Bytes, take}
use miradex_client.Monero.Scalars.{
  Text, ed25519_group_order, bytes_to_nat_le, nat_to_bytes, hex_to_scalar, encode_varint,
}
use miradex_client.Monero.{TxOutput, MoneroTxJson, same_text}

-- `Point` of @noble/ed25519, with `keccak_256` and the codes of hex of @noble/hashes.
pub record Curve (Point : Type 0) : Type 0 where
  pub base : Point
  pub multiply : Point → ℕ → Result Point
  pub add : Point → Point → Point
  pub clear_cofactor : Point → Point
  pub to_bytes : Point → Bytes
  pub from_hex : Text → Result Point
  pub keccak_256 : Bytes → Bytes
  pub bytes_to_hex : Bytes → Text
  pub hex_to_bytes : Text → Result Bytes

abbrev pub extract_tx_pub_key : Bytes → Option Bytes
extract_tx_pub_key [] = none
extract_tx_pub_key (b ∷ extra) =
    let later = extract_tx_pub_key extra in
    if b == 1 && leb 32 (length extra) then some (map (λ c. c % 256) (take 32 extra)) else later

-- `output.target.tagged_key?.key ?? output.target.key`, unless it is missing or empty.
unfoldable pub output_key : TxOutput → Option Text
output_key output =
    let key : Option Text = elim output.tagged_key [
      | none ↦ output.key
      | some tagged ↦ some tagged.key
    ] in
    elim key [ none ↦ none | some [] ↦ none | some (c ∷ cs) ↦ some (c ∷ cs) ]

-- The eight bytes of an amount, each with its byte of the key.
abbrev pub xor_bytes : Bytes → Bytes → (count i : ℕ) → Bytes
xor_bytes encrypted key ℕ.zero i = []
xor_bytes encrypted key (suc count) i =
    bit_xor (get_or encrypted i 0) (get_or key i 0) % 256 ∷ xor_bytes encrypted key count (suc i)

-- `new TextEncoder().encode('amount')`
abbrev pub amount_prefix : Bytes
amount_prefix = 97 ∷ 109 ∷ 111 ∷ 117 ∷ 110 ∷ 116 ∷ []

module _ {Point : Type 0} (c : Curve Point) where
  unfoldable pub derive_scalar_bytes : Bytes → ℕ → Bytes
  derive_scalar_bytes d8 i = c.keccak_256 (d8 ++ encode_varint i)

  unfoldable pub derive_scalar : Bytes → ℕ → ℕ
  derive_scalar d8 i = bytes_to_nat_le (derive_scalar_bytes d8 i) % ed25519_group_order

  unfoldable pub amount_key : Bytes → ℕ → Bytes
  amount_key d8 i =
      c.keccak_256 (amount_prefix ++ nat_to_bytes (bytes_to_nat_le (derive_scalar_bytes d8 i)))

  unfoldable pub decrypt_amount : Bytes → ℕ → Option Text → Result ℕ
  decrypt_amount d8 i none = ok 0
  decrypt_amount d8 i (some ecdh) = do
    encrypted ← c.hex_to_bytes ecdh
    ok (bytes_to_nat_le (xor_bytes encrypted (amount_key d8 i) 8 0))

  abbrev pub point_hex : Point → Text
  point_hex p = c.bytes_to_hex (c.to_bytes p)

  -- P' = Hs(D8 || varint(i)) * G + B
  unfoldable pub one_time_key : (d8 : Bytes) → (spend_pub : Point) → ℕ → Result Text
  one_time_key d8 spend_pub i = do
    derived ← c.multiply c.base (derive_scalar d8 i)
    ok (point_hex (c.add derived spend_pub))

  -- 8 * (v * R)
  unfoldable pub secret_of : (view_key : Text) → (r_bytes : Bytes) → Result Bytes
  secret_of view_key r_bytes = do
    v ← hex_to_scalar view_key
    r ← c.from_hex (c.bytes_to_hex r_bytes)
    shared ← c.multiply r v
    ok (c.to_bytes (c.clear_cofactor shared))

pub record ScannedOutput : Type 0 where
  pub one_time_public_key : Text
  pub tx_public_key : Text
  pub output_index : ℕ
  pub global_output_index : ℕ
  pub amount : ℕ
  pub rct_mask : Text

-- `decryptAmountFn`
abbrev pub Decrypt : Type 0
Decrypt = (view_key tx_pub_key : Text) → ℕ → (encrypted : Text) → Result ℕ

-- The parameters of `scanTransactionOutputs`: `compute_mask` and `decrypt_amount_fn` are given the
-- rest of their arguments.
pub record ScanParams : Type 0 where
  pub tx_json : MoneroTxJson
  pub global_output_indices : List ℕ
  pub view_key : Text
  pub spend_pub : Text
  pub compute_mask : (view_key tx_pub_key : Text) → ℕ → Result Text
  pub decrypt_amount_fn : Option ((view_key tx_pub_key : Text) → ℕ → (encrypted : Text) → Result ℕ)

abbrev pub or_none : Result Text → Text
or_none (ok mask) = mask
or_none (err e) = []

module _ {Point : Type 0} (c : Curve Point) (p : ScanParams) (r_bytes d8 : Bytes) where
  unfoldable pub scanned_amount : ℕ → Option Text → Result ℕ
  scanned_amount i none = decrypt_amount c d8 i none
  scanned_amount i (some encrypted) = elim p.decrypt_amount_fn [
    | none ↦ decrypt_amount c d8 i (some encrypted)
    | some decrypt ↦ decrypt p.view_key (c.bytes_to_hex r_bytes) i encrypted
  ]

  unfoldable pub scanned : ℕ → Text → Result ScannedOutput
  scanned i key = do
    amount ← scanned_amount i (get_elem? p.tx_json.rct_signatures.ecdh_info i)
    ok (record {
      one_time_public_key = key;
      tx_public_key = c.bytes_to_hex r_bytes;
      output_index = i;
      global_output_index = get_or p.global_output_indices i 0;
      amount = amount;
      rct_mask = or_none (p.compute_mask p.view_key (c.bytes_to_hex r_bytes) i);
    })

  abbrev pub scan_outputs : (spend_pub : Point) → ℕ → List TxOutput → Result (List ScannedOutput)
  scan_outputs spend_pub i [] = ok []
  scan_outputs spend_pub i (output ∷ outputs) =
      let later = scan_outputs spend_pub (suc i) outputs in
      elim (output_key output) [
        | none ↦ later
        | some key ↦ (do
          expected ← one_time_key c d8 spend_pub i
          if same_text expected key
              then (do found ← scanned i key; rest ← later; ok (found ∷ rest))
              else later)
      ]

module _ {Point : Type 0} (c : Curve Point) where
  abbrev pub scan_with : ScanParams → Bytes → Result Bytes → Result (List ScannedOutput)
  scan_with p r_bytes (err e) = ok []
  scan_with p r_bytes (ok d8) = elim (c.from_hex p.spend_pub) [
    | err e ↦ ok []
    | ok spend_pub ↦ scan_outputs c p r_bytes d8 spend_pub 0 p.tx_json.vout
  ]

  unfoldable pub scan_transaction_outputs : ScanParams → Result (List ScannedOutput)
  scan_transaction_outputs p = elim (extract_tx_pub_key p.tx_json.extra) [
    | none ↦ ok []
    | some r_bytes ↦ scan_with p r_bytes (secret_of c p.view_key r_bytes)
  ]

-- src/atomic-swap/monero-sweep/index.ts: the scan of the sweep, which decrypts amounts with the
-- WASM code that it is given, and the output that it takes.
abbrev pub sweep_scan :
    MoneroTxJson
    → List ℕ
    → (view_key spend_pub : Text) → ((view_key tx_pub_key : Text) → ℕ → Result Text)
    → Decrypt
    → ScanParams
sweep_scan tx indices view_key spend_pub compute_mask decrypt = record {
  tx_json = tx;
  global_output_indices = indices;
  view_key = view_key;
  spend_pub = spend_pub;
  compute_mask = compute_mask;
  decrypt_amount_fn = some decrypt;
}

-- `scannedOutputs[0]`
abbrev pub real_output : List ScannedOutput → Result ScannedOutput
real_output [] = err plain_error
real_output (o ∷ found) = ok o

unfoldable pub find_real_output : {Point : Type 0} → Curve Point → ScanParams → Result ScannedOutput
find_real_output c p = do found ← scan_transaction_outputs c p; real_output found
