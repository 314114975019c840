-- ===== src/Drive/Store.antt =====
-- The recovery snapshot and the broadcast, the last two phases of funding in
-- src/atomic-swap/drive.ts.
use Prim.Native.String.{String}
use miradex_client.Prelude.{
  ℕ, zero, suc, ◌+◌, not, ◌&&◌, Option, none, some, [], ◌∷◌, str_eq, if◌then◌else◌,
}
use miradex_client.Errors.Codes.{protocol_error, e_snapshot_write_failed}
use miradex_client.Errors.Text.{includes}
use mathlib.Core.Option
use miradex_client.Protocol.{
  ProtocolParams, SwapDetail, ExtractedProtocolData, XmrVerificationData, present, or_empty,
  or_else, or_value,
}
use miradex_client.Snapshot.{
  printed, SnapshotInput, ProtocolParamsSnapshot, LockProofSnapshot, build_protocol_snapshot,
}
use miradex_client.Drive.{
  UnsignedPsbt, PresigsEncsig, Services, Tick, progress, snapshot_found, snapshot_written,
  post_fund, Flow,
}
use miradex_client.Drive.Acts.{Act, pure, tell, throw}

abbrev pub fund_attempts : ℕ
fund_attempts = 6

module _ (sv : Services) where
  abbrev snapshot_params :
      ProtocolParams → PresigsEncsig → (cancel_sig : Option String) → ProtocolParamsSnapshot
  snapshot_params p e cancel_sig = record {
    a = p.a;
    s_a_bitcoin = p.s_a_bitcoin;
    s_a_monero = or_empty p.s_a_monero;
    v_a = p.v_a;
    cancel_timelock = p.cancel_timelock;
    punish_timelock = p.punish_timelock;
    remaining_refund_timelock = p.remaining_refund_timelock;
    redeem_address = p.redeem_address;
    punish_address = p.punish_address;
    tx_cancel_fee_sats = p.tx_cancel_fee_sats;
    tx_refund_fee_sats = p.tx_refund_fee_sats;
    tx_redeem_fee_sats = p.tx_redeem_fee_sats;
    tx_punish_fee_sats = p.tx_punish_fee_sats;
    amnesty_amount_sats = p.amnesty_amount_sats;
    tx_partial_refund_fee_sats = p.tx_partial_refund_fee_sats;
    tx_reclaim_fee_sats = p.tx_reclaim_fee_sats;
    tx_withhold_fee_sats = p.tx_withhold_fee_sats;
    tx_mercy_fee_sats = p.tx_mercy_fee_sats;
    monero_lock_address = p.monero_lock_address;
    xmr_amount_pico = or_value p.xmr_amount_pico "0";
    tx_full_refund_encsig = e.tx_full_refund_encsig;
    tx_partial_refund_encsig = e.tx_partial_refund_encsig;
    tx_cancel_sig = cancel_sig;
  }

  abbrev lock_proof : XmrVerificationData → LockProofSnapshot
  lock_proof x = record {
    tx_hash = x.lock_transfer_proof.tx_hash;
    tx_key = x.lock_transfer_proof.tx_key;
  }

  abbrev pub snapshot_input :
      (now : ℕ)
      → SwapDetail
      → ExtractedProtocolData
      → ProtocolParams
      → (lock_address : String) → UnsignedPsbt
      → PresigsEncsig
      → SnapshotInput
  snapshot_input now detail pdx p lock_address unsigned e = record {
    swap_id = sv.swap_id;
    external_swap_id = detail.swap_number;
    keystore_id = sv.keystore_id;
    network = sv.network;
    captured_by_version = or_value sv.client_version "unknown";
    captured_at_epoch_ms = now;
    protocol_params =
        snapshot_params p e
          (or_else e.tx_cancel_sig (or_else p.tx_cancel_sig pdx.alice_tx_cancel_sig));
    lock_tx = record {
      txid = if str_eq unsigned.txid "" then or_empty e.tx_lock_txid else unsigned.txid;
      vout = or_value e.tx_lock_vout unsigned.vout;
      amount_sats = or_value e.tx_lock_amount_sats (printed unsigned.amount_sats);
      unsigned_psbt = unsigned.psbt;
      lock_address = lock_address;
    };
    maker = record {
      peer_id = or_empty (or_else pdx.maker_peer_id sv.maker_peer_id);
      multiaddrs = or_value (or_else pdx.maker_multiaddrs sv.maker_multiaddrs) [];
    };
    chain = record {
      monero_wallet_restore_blockheight =
          Option.bind pdx.xmr_verification (λ x. x.monero_restore_height);
      lock_transfer_proof = Option.map lock_proof pdx.xmr_verification;
      sidecar_state_at_capture = detail.status;
    };
  }

  -- Phase 3, `maybeWriteSnapshot`: nothing without a callback, nothing if one is stored already.
  unfoldable pub write_snapshot : Tick → SnapshotInput → Act (Unit {0})
  write_snapshot t input =
      if not sv.saves_snapshots
      then pure tt
      else if sv.loads_snapshots && present t.existing_snapshot
      then tell snapshot_found
      else if t.snapshot_saved
      then tell (snapshot_written (build_protocol_snapshot sv.snapshot_digest input))
      else throw (protocol_error e_snapshot_write_failed)

-- Phase 4: POST /fund, up to six times while the broker is not armed; `n` is the attempt.
unfoldable pub post_fund_from :
    (rounds : ℕ) → (n : ℕ) → Tick → (lock_address signed : String) → Act (Unit {0})
post_fund_from zero n t lock_address signed s = pure tt s
post_fund_from (suc rounds) n t lock_address signed s =
    let later = post_fund_from rounds (n + 1) t lock_address signed s in
    elim (t.fund_answer n) [
      | none ↦ (
        post_fund signed ∷ progress "funding" ∷ [],
        record s {
          last_funded_address = lock_address;
          last_signed_psbt = signed;
          funded_at = t.funded_now;
        },
        Flow.next tt,
      )
      | some msg ↦
          if includes "no swap awaiting broadcast" msg
          then (post_fund signed ∷ later.0, later.1, later.2)
          else (post_fund signed ∷ [], s, Flow.next tt)
    ]
