-- ===== src/Errors/Codes.antt =====
-- src/types/errors.ts, and the classes of errors that carry its codes. The texts of the messages
-- are left out.

use mathlib.Core.Bool.{Bool, true, false}

-- The keys of `ERROR_CODES`.
pub data ErrorCode : Type 0 where
  e_redeem_digest_mismatch e_lock_addr_mismatch e_lock_script e_s_a_mismatch : ErrorCode
  e_s_a_monero_missing e_coop_sa_adaptor_mismatch e_coop_sa_pubkey_mismatch : ErrorCode
  e_amnesty_exceeds_cap e_amnesty_negative e_fee_below_relay e_fee_above_cap : ErrorCode
  e_output_dust e_xmr_lock_failed e_xmr_timelocked_output e_quorum_impossible : ErrorCode
  e_quorum_disagree e_monero_quorum e_dest_addr_invalid e_provider_unknown : ErrorCode
  e_protocol_params_missing e_no_signed_psbt e_drive_timeout e_terminal : ErrorCode
  e_wasm_integrity e_keystore_v1_incomplete e_encsig_submit_failed : ErrorCode
  e_memo_malformed e_memo_dest_mismatch e_thorchain_quorum : ErrorCode
  e_thorchain_vault_disagree e_vault_unknown e_vault_halted : ErrorCode
  e_thornode_quote_unavailable e_unexpected_timelock e_chainflip_shape : ErrorCode
  e_chainflip_http e_chainflip_timeout e_chainflip_channel_disagree : ErrorCode
  e_chainflip_channel_misbinding e_chainflip_channel_expiring : ErrorCode
  e_chainflip_amount_below_min e_chainflip_amount_above_max : ErrorCode
  e_near_intent_not_registered e_near_intent_expired e_near_intent_expiring : ErrorCode
  e_near_intent_failed e_near_intent_misbinding e_near_intent_chain_dest : ErrorCode
  e_near_intent_chain_amount e_rate_drift e_quote_drift e_quote_tampered : ErrorCode
  e_quote_stale e_oracle_quorum e_oracle_spread e_rate_deviation : ErrorCode
  e_provider_unsupported_refund e_deposit_too_many_utxos e_sweep_dust : ErrorCode
  e_slippage_out_of_range e_invalid_dest_address e_poll_out_of_range : ErrorCode
  e_retries_out_of_range e_provider_substituted e_verification_absent : ErrorCode
  e_tx_cancel_unverified e_tx_cancel_malformed e_encsig_refund_invalid : ErrorCode
  e_encsig_refund_missing e_refund_dust e_amnesty_dust e_amnesty_derive : ErrorCode
  e_refund_sig_a e_refund_sig_b e_refund_broadcast e_sig_high_s : ErrorCode
  e_refund_params_missing e_snapshot_write_failed e_libp2p_seed_required : ErrorCode
  e_timelock_out_of_range e_dleq_proof_required e_dleq_proof_invalid : ErrorCode
  e_presigs_wedged : ErrorCode

-- What the swap code throws: `VerificationError` and `ProtocolError` with their codes,
-- `SwapCancelledError`, and any other `Error`.
pub data Failure : Type 0 where
  verification_error protocol_error : ErrorCode → Failure
  swap_cancelled plain_error : Failure

pub data Result {ℓ} (A : Type ℓ) : Type ℓ where
  ok : A → Result A
  err : Failure → Result A

abbrev pub is_ok {ℓ} : {A : Type ℓ} → Result A → Bool
is_ok (ok a) = true
is_ok (err e) = false
