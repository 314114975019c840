-- ===== src/Refund/Signing.antt =====
-- src/atomic-swap/refund.ts: what a signed refund carries.
use Prim.Native.String.{String}
use mathlib.Core.List.{reverse}
use mathlib.Core.Bool.{Bool}
use miradex_client.Prelude.{
  ℕ, ◌≡◌, refl, Bool, true, false, List, [], ◌∷◌, ◌++◌, arith, ◌∙◌, sym, ap, length, ◌==◌, ==_iff,
  Bool-cases, inl, inr,
}
use miradex_client.Errors.Codes.{Failure, ok, err}
use miradex_client.Presign.Chains.{bound, passed, returned}
use miradex_client.Refund.Der.{Bytes, is_low_s, compact_to_der, der_to_compact}
use miradex_client.Refund.RoundTrip.{der_to_compact-compact_to_der}
use miradex_client.Refund.{
  Bitcoin, Signer, RefundKeys, Tx, TxIn, AssembledRefund, sighash_all, require, with_witness,
  assemble, sign_refund,
}

-- The element of the stack is a DER signature with the byte of SIGHASH_ALL behind it; decoded, it is
-- in low-S form and is checked against the key.
pub record IsSignature (signer : Signer) (digest pub_key element : Bytes) : Type 0 where
  pub der : Bytes
  pub compact : Bytes
  pub hash_type : element ≡ der ++ sighash_all ∷ []
  pub decoded : der_to_compact der ≡ ok compact
  pub low : is_low_s compact ≡ true
  pub verifies : signer.ecc_verify digest pub_key compact ≡ ok true

-- The transaction with both signatures and the script at its input 0.
pub record IsAssembled (b : Bitcoin) (signer : Signer) (keys : RefundKeys) (tx : Tx)
    (witness_script digest : Bytes) (r : AssembledRefund) : Type 0 where
  pub input : TxIn
  pub others : List TxIn
  pub element_a : Bytes
  pub element_b : Bytes
  pub has_input : tx.ins ≡ input ∷ others
  pub same_digest : r.digest ≡ digest
  pub by_alice : IsSignature signer digest keys.a_pub element_a
  pub by_bob : IsSignature signer digest keys.b_pub element_b
  pub is_hex :
      r.hex
      ≡ b.to_hex (record tx {
        ins = record input { witness = element_b ∷ element_a ∷ witness_script ∷ [] } ∷ others;
      })

-- The transaction is the one that was given, its digest is that of its input for the value, and
-- Alice's encrypted signature was checked over this digest.
pub record IsSigned (b : Bitcoin) (signer : Signer) (keys : RefundKeys) (tx_refund_hex : String)
    (witness_script : Bytes) (cancel_sats : ℕ) (encsig : Bytes) (r : AssembledRefund) : Type 0 where
  pub tx : Tx
  pub digest : Bytes
  pub decoded : b.from_hex tx_refund_hex ≡ ok tx
  pub digest_of : signer.hash_for_witness tx witness_script cancel_sats ≡ ok digest
  pub encsig_checked : signer.verify_encsig keys.a_pub keys.s_b_pub digest encsig ≡ ok true
  pub assembled : IsAssembled b signer keys tx witness_script digest r

required : (test : Bool) (failure : Failure) → require test (err failure) ≡ ok tt → test ≡ true
required true failure e = refl
required false failure e = ground arith

low_is_long : (compact : Bytes) → is_low_s compact ≡ true → length compact ≡ 64
unfolding is_low_s
low_is_long compact e = elim (Bool-cases (length compact == 64)) [
  | inl h ↦ (==_iff (length compact) 64).0 h
  | inr h ↦ ground arith
]

der_reads_back :
    (compact der : Bytes)
    → is_low_s compact ≡ true
    → compact_to_der compact ≡ ok der
    → der_to_compact der ≡ ok compact
der_reads_back compact der low e =
    let back = der_to_compact-compact_to_der compact (low_is_long compact low) in
    ap der_to_compact (returned (λ d. d ≡ back.0) (sym back.1 ∙ e) refl) ∙ back.2

-- One of the two signatures, as the chain leaves it.
checked-IsSignature :
    (signer : Signer) (digest pub_key compact der : Bytes) (verifies : Bool) (failure : Failure)
    → is_low_s compact ≡ true
    → signer.ecc_verify digest pub_key compact ≡ ok verifies
    → require verifies (err failure) ≡ ok tt
    → compact_to_der compact ≡ ok der
    → IsSignature signer digest pub_key (der ++ sighash_all ∷ [])
checked-IsSignature signer digest pub_key compact der verifies failure low checked passes e =
    record {
      der = der;
      compact = compact;
      hash_type = refl;
      decoded = der_reads_back compact der low e;
      low = low;
      verifies = checked ∙ ap ok (required verifies failure passes);
    }

with_witness_cases :
    (tx signed : Tx) (witness : List Bytes) (ins : List TxIn)
    → tx.ins ≡ ins
    → with_witness tx witness ≡ ok signed
    → (input : TxIn) × (others : List TxIn) × (tx.ins ≡ input ∷ others)
      × (signed ≡ record tx { ins = record input { witness = witness } ∷ others })
unfolding with_witness
with_witness_cases tx signed witness [] h e = ground arith
with_witness_cases tx signed witness (input ∷ others) h e = (input, others, h, ground arith)

assemble-IsAssembled :
    (b : Bitcoin) (signer : Signer) (keys : RefundKeys) (tx : Tx)
    (script digest sig_a sig_b : Bytes) (r : AssembledRefund)
    → assemble b signer keys tx script digest sig_a sig_b ≡ ok r
    → IsAssembled b signer keys tx script digest r
unfolding assemble
assemble-IsAssembled b signer keys tx script digest sig_a sig_b r e =
    let at_low_a = passed (require (is_low_s sig_a) _) _ e in
    let at_low_b = passed (require (is_low_s sig_b) _) _ at_low_a.1 in
    let at_check_a = bound (signer.ecc_verify digest keys.a_pub sig_a) _ at_low_b.1 in
    let at_passed_a = passed (require at_check_a.0 _) _ at_check_a.2 in
    let at_check_b = bound (signer.ecc_verify digest keys.b_pub sig_b) _ at_passed_a.1 in
    let at_passed_b = passed (require at_check_b.0 _) _ at_check_b.2 in
    let at_der_a = bound (compact_to_der sig_a) _ at_passed_b.1 in
    let at_der_b = bound (compact_to_der sig_b) _ at_der_a.2 in
    let at_signed = bound (with_witness tx _) _ at_der_b.2 in
    let input = with_witness_cases tx at_signed.0 _ tx.ins refl at_signed.1 in
    returned (IsAssembled b signer keys tx script digest) at_signed.2 (record {
      input = input.0;
      others = input.1;
      element_a = at_der_a.0 ++ sighash_all ∷ [];
      element_b = at_der_b.0 ++ sighash_all ∷ [];
      has_input = input.2;
      same_digest = refl;
      by_alice =
          checked-IsSignature signer digest keys.a_pub sig_a at_der_a.0 at_check_a.0 _
            (required _ _ at_low_a.0) at_check_a.1 at_passed_a.0 at_der_a.1;
      by_bob =
          checked-IsSignature signer digest keys.b_pub sig_b at_der_b.0 at_check_b.0 _
            (required _ _ at_low_b.0) at_check_b.1 at_passed_b.0 at_der_b.1;
      is_hex = ap b.to_hex input.3;
    })

-- A refund that is signed is the transaction that was given, with a witness of both signatures and
-- the script at its input 0: each signature is a DER form with the hash type behind it that decodes
-- to a low-S signature which verifies under its key, over the digest of that input (see `IsSigned`).
pub sign_refund-IsSigned :
    (b : Bitcoin) (signer : Signer) (keys : RefundKeys) (tx_refund_hex : String)
    (witness_script : Bytes) (cancel_sats : ℕ) (encsig : Bytes) (r : AssembledRefund)
    → sign_refund b signer keys tx_refund_hex witness_script cancel_sats encsig ≡ ok r
    → IsSigned b signer keys tx_refund_hex witness_script cancel_sats encsig r
unfolding sign_refund
sign_refund-IsSigned b signer keys hex script sats encsig r e =
    let at_tx = bound (b.from_hex hex) _ e in
    let at_digest = bound (signer.hash_for_witness at_tx.0 script sats) _ at_tx.2 in
    let at_encsig =
      bound (signer.verify_encsig keys.a_pub keys.s_b_pub at_digest.0 encsig) _ at_digest.2 in
    let at_valid = passed (require at_encsig.0 _) _ at_encsig.2 in
    let at_a = bound (signer.decrypt_signature (reverse keys.s_b_le) encsig) _ at_valid.1 in
    let at_b = bound (signer.sign_digest keys.b_key at_digest.0) _ at_a.2 in
    record {
      tx = at_tx.0;
      digest = at_digest.0;
      decoded = at_tx.1;
      digest_of = at_digest.1;
      encsig_checked = at_encsig.1 ∙ ap ok (required at_encsig.0 _ at_valid.0);
      assembled =
          assemble-IsAssembled b signer keys at_tx.0 script at_digest.0 at_a.0 at_b.0 r at_b.2;
    }
