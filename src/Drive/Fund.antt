-- ===== src/Drive/Fund.antt =====
-- The branch `action === 'fund'` of src/atomic-swap/drive.ts, piece by piece.
use Prim.Native.String.{String}
use miradex_client.Prelude.{
  ℕ, ◌+◌, ◌-◌, Bool, true, not, ◌&&◌, ◌||◌, Option, none, some, ltb, leb, str_eq, if◌then◌else◌,
}
use miradex_client.Errors.Codes.{
  verification_error, protocol_error, e_dleq_proof_required, e_dleq_proof_invalid,
  e_xmr_lock_failed, e_lock_addr_mismatch, e_protocol_params_missing, e_presigs_wedged,
  e_encsig_refund_missing,
}
use miradex_client.Errors.Text.{includes}
use miradex_client.Protocol.{
  ProtocolParams, SwapDetail, ExtractedProtocolData, present, or_empty, or_value,
}
use miradex_client.Snapshot.{printed}
use miradex_client.Drive.{
  UnsignedPsbt, PresigsEncsig, empty_presigs_encsig, Services, PresigsAnswer, presigs_accepted,
  presigs_refused, Tick, progress, dleq_checked, contract_checked, post_presigs, State,
}
use miradex_client.Drive.Acts.{Act, ◌>>=◌, ◌>>◌, pure, tell, modify, poll_again, throw, attempt}
use miradex_client.Drive.Store.{snapshot_input, write_snapshot, post_fund_from, fund_attempts}

abbrev pub presigs_already_done_max : ℕ
presigs_already_done_max = 6

abbrev pub fund_settle_ms : ℕ
fund_settle_ms = 15000

-- `pastFunding`
unfoldable pub past_funding : String → Bool
past_funding status =
    not (str_eq status "initializing")
    && not (str_eq status "awaiting_funding")
    && not (str_eq status "pending")

module _ (sv : Services) where
  -- The check of Alice's DLEQ proof, once in the life of the loop.
  unfoldable pub check_dleq : Option ProtocolParams → Act (Unit {0})
  check_dleq none s = if s.alice_dleq_verified then pure tt s else poll_again s
  check_dleq (some p) s =
      if s.alice_dleq_verified
      then pure tt s
      else if not (present p.dleq_proof_s_a)
      then poll_again s
      else if not (present p.s_a_monero) || str_eq p.s_a_bitcoin ""
      then throw (verification_error e_dleq_proof_required) s
      else (do
        let valid =
            sv.verify_dleq_proof p.s_a_bitcoin (or_empty p.s_a_monero) (or_empty p.dleq_proof_s_a)
        tell (dleq_checked p.s_a_bitcoin (or_empty p.s_a_monero) (or_empty p.dleq_proof_s_a) valid)
        if valid
            then modify (λ t. record t { alice_dleq_verified = true })
            else throw (verification_error e_dleq_proof_invalid))
          s

  -- The check of the lock contract with the provider, once in the life of the loop.
  unfoldable pub check_contract : Tick → SwapDetail → Act (Unit {0})
  check_contract t detail s =
      if not s.verification_emitted && detail.has_verification && present detail.deposit_address
      then (do
        modify (λ u. record u { verification_emitted = true })
        verified ← attempt t.contract_verified
        tell (contract_checked (or_empty detail.deposit_address) verified)
        tell (progress "signing_psbt")
        if verified then pure tt else throw (verification_error e_xmr_lock_failed))
          s
      else pure tt s

  -- The parameters, and the lock address derived from them.
  unfoldable pub check_lock_address : Option ProtocolParams → String → Act ProtocolParams
  check_lock_address none lock_address = do tell (progress "signing_psbt"); poll_again
  check_lock_address (some p) lock_address = do
    derived ← attempt (sv.derive_lock_address p.a sv.b_pub)
    if str_eq derived lock_address then pure p else throw (verification_error e_lock_addr_mismatch)

  -- Phase 1: the lock transaction, unsigned and signed, and Bob's pre-signatures.
  unfoldable pub build_lock :
      SwapDetail → String → ProtocolParams → Act (UnsignedPsbt × String × String)
  build_lock detail lock_address p = do
    tell (progress "signing_psbt")
    let lock_amount_sats : Option ℕ =
        if present detail.amount_in then some (sv.sats_of (or_empty detail.amount_in)) else none
    unsigned ← attempt (sv.build_funding_psbt lock_address lock_amount_sats)
    signed ← attempt (sv.sign_psbt unsigned.psbt)
    if str_eq sv.b_secret "" || str_eq sv.refund_address ""
        then throw (protocol_error e_protocol_params_missing)
        else (do
          pre_sigs ← attempt (sv.compute_pre_sigs signed p)
          tell (progress "funding")
          pure (unsigned, signed, pre_sigs))

  unfoldable pub already_has_encsig : ExtractedProtocolData → ProtocolParams → Bool
  already_has_encsig pdx p =
      (present p.tx_full_refund_encsig || present p.tx_partial_refund_encsig)
      && present pdx.redeem_digest_hex

  unfoldable pub means_past_presigs : String → Bool
  means_past_presigs msg = includes "no pending PSBT" msg || includes "cannot perform presigs" msg

  unfoldable pub presigs_answered : PresigsAnswer → Act PresigsEncsig
  presigs_answered (presigs_accepted body) s =
      pure (or_value body empty_presigs_encsig) (record s { presigs_streak = 0 })
  presigs_answered (presigs_refused msg) s =
      if means_past_presigs msg
      then (if leb presigs_already_done_max (s.presigs_streak + 1)
          then throw (protocol_error e_presigs_wedged)
              (record s { presigs_streak = s.presigs_streak + 1 })
          else poll_again (record s { presigs_streak = s.presigs_streak + 1 }))
      else poll_again s

  -- Phase 2: POST /presigs, unless the server has its answer already.
  unfoldable pub submit_presigs :
      Tick
      → ExtractedProtocolData
      → ProtocolParams
      → (lock_address : String) → UnsignedPsbt × String × String
      → Act PresigsEncsig
  unfolding already_has_encsig means_past_presigs presigs_answered
  submit_presigs t pdx p lock_address (unsigned, signed, pre_sigs) =
      if already_has_encsig pdx p
      then (do
        modify (λ s. record s { presigs_streak = 0 })
        pure (record {
          tx_full_refund_encsig = p.tx_full_refund_encsig;
          tx_partial_refund_encsig = p.tx_partial_refund_encsig;
          tx_cancel_sig = p.tx_cancel_sig;
          tx_lock_txid = some unsigned.txid;
          tx_lock_vout = some unsigned.vout;
          tx_lock_amount_sats = some (printed unsigned.amount_sats);
        }))
      else (do tell (post_presigs unsigned.psbt lock_address pre_sigs); presigs_answered t.presigs)

  -- A refund signature of one kind at least must be there.
  unfoldable pub check_encsig : PresigsEncsig → Act (Unit {0})
  check_encsig e =
      if not (present e.tx_full_refund_encsig) && not (present e.tx_partial_refund_encsig)
      then throw (protocol_error e_encsig_refund_missing)
      else pure tt

-- `hasPending`
unfoldable pub has_pending : SwapDetail → Bool
has_pending detail = present detail.deposit_address && not (past_funding detail.status)

-- The lock was sent, and the server has had time to see it.
unfoldable pub is_settling : Tick → SwapDetail → State → Bool
is_settling t detail s =
    past_funding detail.status
    && not (has_pending detail)
    && ltb 0 s.funded_at
    && ltb fund_settle_ms (t.now - s.funded_at)

-- The server waits for the lock again, so that the time of the last one is forgotten.
unfoldable pub rearm : SwapDetail → State → State
unfolding has_pending
rearm detail s = if has_pending detail && ltb 0 s.funded_at then record s { funded_at = 0 } else s

-- There is a deposit address, and it is not the one that was funded last.
unfoldable pub wants_funding : SwapDetail → State → Bool
wants_funding detail s =
    present detail.deposit_address
    && not (str_eq (or_empty detail.deposit_address) s.last_funded_address)

module _ (sv : Services) where
  -- The funding of one lock address, once it is known to differ from the last one funded, from
  -- its last piece to its first.
  unfoldable pub fund_stored : Tick → (lock_address signed : String) → Act (Unit {0})
  fund_stored t lock_address signed = do
    tell (progress "funding")
    post_fund_from fund_attempts 0 t lock_address signed

  unfoldable pub fund_answered :
      Tick
      → SwapDetail
      → ExtractedProtocolData
      → (lock_address : String) → ProtocolParams
      → UnsignedPsbt × String × String
      → PresigsEncsig
      → Act (Unit {0})
  fund_answered t detail pdx lock_address p (unsigned, signed, pre_sigs) encsig = do
    check_encsig sv encsig
    write_snapshot sv t (snapshot_input sv t.now detail pdx p lock_address unsigned encsig)
    fund_stored t lock_address signed

  unfoldable pub fund_built :
      Tick
      → SwapDetail
      → ExtractedProtocolData
      → (lock_address : String) → ProtocolParams
      → UnsignedPsbt × String × String
      → Act (Unit {0})
  fund_built t detail pdx lock_address p built = do
    encsig ← submit_presigs sv t pdx p lock_address built
    fund_answered t detail pdx lock_address p built encsig

  unfoldable pub fund_derived :
      Tick
      → SwapDetail
      → ExtractedProtocolData
      → (lock_address : String) → ProtocolParams
      → Act (Unit {0})
  fund_derived t detail pdx lock_address p = do
    built ← build_lock sv detail lock_address p
    fund_built t detail pdx lock_address p built

  unfoldable pub fund_linked :
      Tick → SwapDetail → ExtractedProtocolData → (lock_address : String) → Act (Unit {0})
  fund_linked t detail pdx lock_address = do
    check_contract sv t detail
    p ← check_lock_address sv pdx.params lock_address
    fund_derived t detail pdx lock_address p

  unfoldable pub fund_address :
      Tick → SwapDetail → ExtractedProtocolData → (lock_address : String) → Act (Unit {0})
  fund_address t detail pdx lock_address = do
    check_dleq sv pdx.params
    fund_linked t detail pdx lock_address

  -- The whole branch. A value means that the round ends with `delay` and `continue`, like `again`.
  unfoldable pub fund : Tick → SwapDetail → ExtractedProtocolData → Act (Unit {0})
  fund t detail pdx s =
      if is_settling t detail s
      then poll_again s
      else if wants_funding detail s
      then fund_address t detail pdx (or_empty detail.deposit_address) (rearm detail s)
      else poll_again (rearm detail s)
