-- ===== src/Refund.antt =====
-- src/atomic-swap/refund.ts: the refund that Bob builds and signs on his own, in full or (with an
-- amnesty) in part. Refund/Cancel.antt is src/lib/bitcoin/tx-verify.ts, which finds the cancel
-- transaction that a refund spends. Buffers are lists of bytes, amounts are natural numbers: a
-- difference that would be negative is 0 here, and is refused as dust in both cases.
-- Decoding transactions, addresses and scripts, and the keys' operations, are code of other packages.
pub mod Der
mod Slices
pub mod RoundTrip
pub mod Building
pub mod Signing
pub mod Cancel
pub mod Discovery
pub mod Samples
mod Tests
use Prim.Native.String.{String}
use mathlib.Core.List.{reverse}
use miradex_client.Prelude.{
  ℕ, ◌+◌, ◌-◌, Bool, not, Option, none, some, List, [], ◌∷◌, ◌++◌, leb, if◌then◌else◌,
}
use miradex_client.Errors.Codes.{
  Result, ok, err, verification_error, protocol_error, e_tx_cancel_malformed, e_refund_dust,
  e_amnesty_dust, e_amnesty_derive, e_encsig_refund_invalid, e_sig_high_s, e_refund_sig_a,
  e_refund_sig_b,
}
use miradex_client.Presign.{◌>>=◌, ◌>>◌, sequence_final, p2wpkh_floor, p2wsh_floor}
use Der.{Bytes, compact_to_der, is_low_s}

pub record TxOut : Type 0 where
  pub script : Bytes
  pub value : ℕ

pub record TxIn : Type 0 where
  pub hash : Bytes
  pub index : ℕ
  pub sequence : ℕ
  pub witness : List Bytes

pub record Tx : Type 0 where
  pub version : ℕ
  pub locktime : ℕ
  pub ins : List TxIn
  pub outs : List TxOut

-- `bitcoinjs-lib`, for one network: a transaction's hexadecimal form and identifier, the script of
-- an address, and the P2WSH output of a script; and the bytes of a hexadecimal text.
pub record Bitcoin : Type 0 where
  pub from_hex : String → Result Tx
  pub to_hex : Tx → String
  pub get_id : Tx → String
  pub hex_bytes : String → Bytes
  pub to_output_script : String → Result Bytes
  pub multisig_script : (a_pub b_pub : Bytes) → Bytes
  pub p2wsh_output : Bytes → Result (Option Bytes)

abbrev pub first {ℓ} : {A : Type ℓ} → List A → Option A
first [] = none
first (x ∷ xs) = some x

-- The value of TxCancel's output at index 0.
unfoldable pub cancel_value : Tx → Result ℕ
cancel_value tx_cancel = elim (first tx_cancel.outs) [
  | none ↦ err (protocol_error e_tx_cancel_malformed)
  | some cancel_out ↦ ok cancel_out.value
]

-- The transaction that spends TxCancel's output at index 0.
abbrev pub spend_cancel : Bitcoin → Tx → List TxOut → Tx
spend_cancel b tx_cancel outs = record {
  version = 2;
  locktime = 0;
  ins =
      record {
        hash = reverse (b.hex_bytes (b.get_id tx_cancel));
        index = 0;
        sequence = sequence_final;
        witness = [];
      }
      ∷ [];
  outs = outs;
}

pub record BuiltRefund : Type 0 where
  pub tx_refund_hex : String
  pub refund_output_sats : ℕ
  pub cancel_output_sats : ℕ

pub record BuiltPartialRefund : Type 0 where
  pub tx_refund_hex : String
  pub refund_output_sats : ℕ
  pub amnesty_output_sats : ℕ
  pub cancel_output_sats : ℕ

unfoldable pub require_above : (sats floor : ℕ) → Result (Unit {0}) → Result (Unit {0})
require_above sats floor otherwise = if leb sats floor then otherwise else ok tt

unfoldable pub amnesty_output : Option Bytes → Result Bytes
amnesty_output none = err (protocol_error e_amnesty_derive)
amnesty_output (some output) = ok output

module _ (b : Bitcoin) (tx_cancel_hex refund_address : String) where
  unfoldable pub build_full_refund : (refund_fee_sats : ℕ) → Result BuiltRefund
  unfolding cancel_value require_above
  build_full_refund refund_fee_sats = do
    tx_cancel ← b.from_hex tx_cancel_hex
    cancel_sats ← cancel_value tx_cancel
    let refund_sats = cancel_sats - refund_fee_sats
    require_above refund_sats p2wpkh_floor (err (verification_error e_refund_dust))
    script ← b.to_output_script refund_address
    ok (record {
      tx_refund_hex =
          b.to_hex
            (spend_cancel b tx_cancel (record { script = script; value = refund_sats } ∷ []));
      refund_output_sats = refund_sats;
      cancel_output_sats = cancel_sats;
    })

  unfoldable pub build_partial_refund :
      (a_pub b_pub : Bytes) (amnesty_sats partial_refund_fee_sats : ℕ) → Result BuiltPartialRefund
  unfolding cancel_value require_above amnesty_output
  build_partial_refund a_pub b_pub amnesty_sats partial_refund_fee_sats = do
    tx_cancel ← b.from_hex tx_cancel_hex
    cancel_sats ← cancel_value tx_cancel
    let refund_sats = cancel_sats - amnesty_sats - partial_refund_fee_sats
    require_above refund_sats p2wpkh_floor (err (verification_error e_refund_dust))
    require_above amnesty_sats p2wsh_floor (err (verification_error e_amnesty_dust))
    output ← b.p2wsh_output (b.multisig_script a_pub b_pub)
    amnesty_script ← amnesty_output output
    script ← b.to_output_script refund_address
    ok (record {
      tx_refund_hex = b.to_hex (
          spend_cancel b tx_cancel (
            record { script = script; value = refund_sats }
            ∷ record { script = amnesty_script; value = amnesty_sats }
            ∷ []));
      refund_output_sats = refund_sats;
      amnesty_output_sats = amnesty_sats;
      cancel_output_sats = cancel_sats;
    })

-- The operations of the keys, which can throw: the digest that is signed, `verifyEncsig`,
-- `decryptSignature`, `signDigest` and the ECDSA check of `tiny-secp256k1`.
pub record Signer : Type 0 where
  pub hash_for_witness : Tx → (script : Bytes) → (value : ℕ) → Result Bytes
  pub verify_encsig : (a_pub s_b_pub digest encsig : Bytes) → Result Bool
  pub decrypt_signature : (s_b encsig : Bytes) → Result Bytes
  pub sign_digest : (key digest : Bytes) → Result Bytes
  pub ecc_verify : (digest pub_key compact : Bytes) → Result Bool

-- The keys in `SignRefundParams`.
pub record RefundKeys : Type 0 where
  pub s_b_le : Bytes
  pub b_key : Bytes
  pub a_pub : Bytes
  pub b_pub : Bytes
  pub s_b_pub : Bytes

pub record AssembledRefund : Type 0 where
  pub txid : String
  pub hex : String
  pub digest : Bytes

-- The input at index 0 is given its witness.
unfoldable pub with_witness : Tx → List Bytes → Result Tx
with_witness tx witness = elim tx.ins [
  | [] ↦ err (protocol_error e_tx_cancel_malformed)
  | input ∷ others ↦ ok (record tx { ins = record input { witness = witness } ∷ others })
]

abbrev pub sighash_all : ℕ
sighash_all = 1

abbrev pub require : Bool → Result (Unit {0}) → Result (Unit {0})
require test otherwise = if test then ok tt else otherwise

-- Both signatures and the script, for `<A> CHECKSIGVERIFY <B> CHECKSIG`.
abbrev pub witness_stack : (der_a der_b script : Bytes) → List Bytes
witness_stack der_a der_b script =
    (der_b ++ sighash_all ∷ []) ∷ (der_a ++ sighash_all ∷ []) ∷ script ∷ []

module _ (b : Bitcoin) (signer : Signer) (keys : RefundKeys) where
  -- From the two signatures on.
  unfoldable pub assemble :
      (tx : Tx) (witness_script digest sig_a sig_b : Bytes) → Result AssembledRefund
  unfolding with_witness
  assemble tx witness_script digest sig_a sig_b = do
    require (is_low_s sig_a) (err (verification_error e_sig_high_s))
    require (is_low_s sig_b) (err (verification_error e_sig_high_s))
    a_verifies ← signer.ecc_verify digest keys.a_pub sig_a
    require a_verifies (err (verification_error e_refund_sig_a))
    b_verifies ← signer.ecc_verify digest keys.b_pub sig_b
    require b_verifies (err (verification_error e_refund_sig_b))
    der_a ← compact_to_der sig_a
    der_b ← compact_to_der sig_b
    signed ← with_witness tx (witness_stack der_a der_b witness_script)
    ok (record { txid = b.get_id signed; hex = b.to_hex signed; digest = digest })

  unfoldable pub sign_refund :
      (tx_refund_hex : String) (witness_script : Bytes) (cancel_sats : ℕ) (encsig_refund : Bytes)
      → Result AssembledRefund
  unfolding assemble
  sign_refund tx_refund_hex witness_script cancel_sats encsig_refund = do
    tx ← b.from_hex tx_refund_hex
    digest ← signer.hash_for_witness tx witness_script cancel_sats
    encsig_ok ← signer.verify_encsig keys.a_pub keys.s_b_pub digest encsig_refund
    require encsig_ok (err (verification_error e_encsig_refund_invalid))
    sig_a ← signer.decrypt_signature (reverse keys.s_b_le) encsig_refund
    sig_b ← signer.sign_digest keys.b_key digest
    assemble tx witness_script digest sig_a sig_b
