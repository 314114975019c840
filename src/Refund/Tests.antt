-- ===== src/Refund/Tests.antt =====
-- Refunds of src/atomic-swap/refund.ts, and the search of src/lib/bitcoin/tx-verify.ts, for a sample
-- lock. The sample's texts stand for the hexadecimal forms that they name.
use miradex_client.Prelude.{◌≡◌, refl, ◌≢◌, false, List, [], ◌∷◌}
use miradex_client.Errors.Codes.{
  ok, err, plain_error, verification_error, e_refund_dust, e_encsig_refund_invalid,
}
use miradex_client.Refund.Der.{
  Bytes, compact_to_der, der_to_compact, trim_leading_zeros, encode_der_integer, is_low_s,
}
use miradex_client.Refund.RoundTrip.{der_to_compact-compact_to_der}
use miradex_client.Refund.Building.{IsPartialRefund, build_partial_refund-IsPartialRefund}
use miradex_client.Refund.Signing.{IsSigned, sign_refund-IsSigned}
use miradex_client.Refund.Cancel.{
  Entry, verified, script_spends, witness_script_of, check_entry, spends_from_address,
  discover_and_verify_tx_cancel,
}
use miradex_client.Prelude.{pos}
use miradex_client.Refund.Discovery.{
  IsConfirmed, discover_and_verify_tx_cancel-IsConfirmed, stranger_hides_cancel,
}
use miradex_client.Refund.Samples.{
  signature, script, chain, signer, keys, assembled, history, fetched,
}
use miradex_client.Refund.{
  BuiltRefund, BuiltPartialRefund, cancel_value, require_above, amnesty_output, build_full_refund,
  build_partial_refund, assemble, with_witness, sign_refund,
}

signature_der : compact_to_der signature ≡ ok (48 ∷ 7 ∷ 2 ∷ 2 ∷ 0 ∷ 200 ∷ 2 ∷ 1 ∷ 7 ∷ [])
unfolding compact_to_der encode_der_integer trim_leading_zeros
signature_der = refl

too_short : compact_to_der (7 ∷ []) ≡ err plain_error
unfolding compact_to_der encode_der_integer trim_leading_zeros
too_short = refl

der_to_compact-compact_to_der_example :
    (der : Bytes) × (compact_to_der signature ≡ ok der) × (der_to_compact der ≡ ok signature)
der_to_compact-compact_to_der_example = der_to_compact-compact_to_der signature refl

abbrev full : BuiltRefund
full = record { tx_refund_hex = "refund"; refund_output_sats = 899000; cancel_output_sats = 900000 }

-- A fee that is above the output leaves dust.
costly : build_full_refund chain "cancel" "bob" 900001 ≡ err (verification_error e_refund_dust)
unfolding build_full_refund cancel_value require_above
costly = refl

abbrev in_part : BuiltPartialRefund
in_part = record {
  tx_refund_hex = "refund";
  refund_output_sats = 799000;
  amnesty_output_sats = 100000;
  cancel_output_sats = 900000;
}

build_partial_refund-IsPartialRefund_example :
    IsPartialRefund chain "cancel" "bob" (1 ∷ []) (2 ∷ []) 100000 1000 in_part
build_partial_refund-IsPartialRefund_example =
    build_partial_refund-IsPartialRefund chain "cancel" "bob" (1 ∷ []) (2 ∷ []) 100000 1000 in_part
      (unfold build_partial_refund cancel_value require_above amnesty_output in refl)

sign_refund-IsSigned_example : IsSigned chain signer keys "refund" script 900000 (1 ∷ []) assembled
sign_refund-IsSigned_example =
    sign_refund-IsSigned chain signer keys "refund" script 900000 (1 ∷ []) assembled (
      unfold sign_refund assemble with_witness is_low_s compact_to_der encode_der_integer
        trim_leading_zeros in
      refl)

-- The encrypted signature does not verify.
unverified :
    sign_refund chain
      (record signer { verify_encsig = λ a_pub s_b_pub digest encsig. ok false })
      keys
      "refund"
      script
      900000
      (1 ∷ [])
    ≡ err (verification_error e_encsig_refund_invalid)
unfolding sign_refund
unverified = refl

discover_and_verify_tx_cancel-IsConfirmed_example :
    IsConfirmed chain history fetched "lock_address" "cancel" "cancel" (pos 90)
discover_and_verify_tx_cancel-IsConfirmed_example =
    discover_and_verify_tx_cancel-IsConfirmed chain history fetched fetched "lock_address" "lock"
      "cancel" "cancel" (pos 90)
      (unfold discover_and_verify_tx_cancel check_entry spends_from_address script_spends
          witness_script_of in
        refl)

-- A payment to the lock address, before TxCancel.
abbrev paid_again : List Entry
paid_again =
    record { tx_hash = "lock"; height = pos 10 }
    ∷ record { tx_hash = "stranger"; height = pos 11 }
    ∷ record { tx_hash = "cancel"; height = pos 90 }
    ∷ []

stranger_hides_cancel_example :
    discover_and_verify_tx_cancel chain (ok paid_again) fetched fetched "lock_address" "lock"
    ≢ ok (verified "cancel" "cancel" (pos 90))
stranger_hides_cancel_example =
    stranger_hides_cancel chain fetched fetched "lock_address" "lock"
      (record { tx_hash = "stranger"; height = pos 11 }) paid_again "cancel" "cancel" "stranger"
      (pos 90) refl refl refl refl (unfold spends_from_address in refl)
