-- ===== src/Drive/Encsig.antt =====
-- The branch `action === 'submit_encsig'` of src/atomic-swap/drive.ts, piece by piece.
use Prim.Native.String.{String}
use miradex_client.Prelude.{
  ℕ, ◌+◌, Bool, true, not, ◌&&◌, ◌||◌, Option, none, some, leb, str_eq, if◌then◌else◌,
}
use miradex_client.Errors.Codes.{
  verification_error, protocol_error, e_s_a_monero_missing, e_xmr_lock_failed, e_no_signed_psbt,
  e_redeem_digest_mismatch, e_encsig_submit_failed,
}
use miradex_client.Protocol.{
  ProtocolParams, SwapDetail, ExtractedProtocolData, XmrVerificationData, present, or_empty,
}
use miradex_client.Drive.{Services, XmrLockResult, Tick, progress, xmr_checked, post_encsig}
use miradex_client.Drive.Acts.{Act, ◌>>=◌, ◌>>◌, pure, tell, modify, poll_again, throw, attempt}

abbrev pub max_encsig_failures : ℕ
max_encsig_failures = 3

-- `constantTimeEqualHex` of src/lib/crypto/bytes.ts is the equality of texts.
abbrev pub constant_time_equal_hex : String → String → Bool
constant_time_equal_hex a b = str_eq a b

module _ (sv : Services) where
  lock_answered : XmrVerificationData → (spend_pub : String) → XmrLockResult → Act (Unit {0})
  lock_answered x spend_pub r = do
    tell (xmr_checked x.lock_transfer_proof.tx_hash spend_pub x.xmr_amount_pico r.verified)
    if r.verified
        then modify (λ s. record s { xmr_lock_verified = true })
        else if r.retryable
        then (do tell (progress "verifying_xmr"); poll_again)
        else (do tell (progress "error"); throw (verification_error e_xmr_lock_failed))

  -- The check of the Monero lock, once in the life of the loop.
  unfoldable pub check_xmr_lock :
      Tick → Option XmrVerificationData → ProtocolParams → Act (Unit {0})
  unfolding lock_answered
  check_xmr_lock t none p s =
      if s.xmr_lock_verified then pure tt s else (do tell (progress "submit_encsig"); poll_again) s
  check_xmr_lock t (some x) p s =
      if s.xmr_lock_verified
      then pure tt s
      else (do
        tell (progress "verifying_xmr")
        if not (present p.s_a_monero) || not (present sv.s_b_monero)
            then throw (protocol_error e_s_a_monero_missing)
            else (do
              spend_pub ← attempt (sv.add_points (or_empty p.s_a_monero) (or_empty sv.s_b_monero))
              r ← attempt t.xmr_lock
              lock_answered x spend_pub r))
          s

  -- The digest of TxRedeem that is signed: from the transaction in memory, or on a resumed swap
  -- from the one on the chain.
  unfoldable pub local_digest : Tick → SwapDetail → ProtocolParams → Act String
  local_digest t detail p s =
      if not (str_eq s.last_signed_psbt "")
      then attempt (sv.redeem_digest s.last_signed_psbt p) s
      else if not sv.has_blockchain
      then throw (protocol_error e_no_signed_psbt) s
      else if not (present detail.deposit_tx_hash)
      then (do tell (progress "submit_encsig"); poll_again) s
      else (do
        tx_hex ← attempt t.lock_tx
        if str_eq tx_hex ""
            then (do tell (progress "submit_encsig"); poll_again)
            else attempt (sv.redeem_digest_of_tx tx_hex p))
          s

  -- Where the server names a digest it must be the local one.
  unfoldable pub check_digest : (claimed : Option String) → (local : String) → Act (Unit {0})
  check_digest claimed local =
      if present claimed && not (constant_time_equal_hex local (or_empty claimed))
      then throw (verification_error e_redeem_digest_mismatch)
      else pure tt

  encsig_answered : (answer : Option String) → Act (Unit {0})
  encsig_answered none s =
      (do tell (progress "confirming"); modify (λ u. record u { encsig_failures = 0 })) s
  encsig_answered (some msg) s =
      if leb max_encsig_failures (s.encsig_failures + 1)
      then throw (protocol_error e_encsig_submit_failed)
          (record s { encsig_failures = s.encsig_failures + 1 })
      else (do
        modify (λ u. record u { encsig_failures = u.encsig_failures + 1 })
        tell (progress "confirming"))
          s

  unfoldable pub send_encsig : Tick → ProtocolParams → (digest : String) → Act (Unit {0})
  unfolding encsig_answered
  send_encsig t p digest = do
    encsig ← attempt (sv.encsign_digest p.s_a_bitcoin digest)
    tell (progress "submit_encsig")
    tell (post_encsig encsig)
    encsig_answered t.encsig_answer

  unfoldable pub release_encsig :
      Tick → SwapDetail → ExtractedProtocolData → ProtocolParams → Act (Unit {0})
  release_encsig t detail pdx p = do
    check_xmr_lock t pdx.xmr_verification p
    local ← local_digest t detail p
    check_digest pdx.redeem_digest_hex local
    send_encsig t p local

  unfoldable pub with_params :
      Tick → SwapDetail → ExtractedProtocolData → Option ProtocolParams → Act (Unit {0})
  with_params t detail pdx none = do tell (progress "submit_encsig"); poll_again
  with_params t detail pdx (some p) = release_encsig t detail pdx p

  -- The whole branch. A value means that the round ends with `delay` and `continue`.
  unfoldable pub submit_encsig : Tick → SwapDetail → ExtractedProtocolData → Act (Unit {0})
  submit_encsig t detail pdx = do
    tell (progress "submit_encsig")
    with_params t detail pdx pdx.params
