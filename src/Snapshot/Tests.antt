-- ===== src/Snapshot/Tests.antt =====
-- A snapshot of src/atomic-swap/snapshot.ts, with a sample digest.
use Prim.Native.String.{String}
use miradex_client.Prelude.{none, []}
use miradex_client.Snapshot.{printed, ProtocolParamsSnapshot, SnapshotInput, SnapshotBody}

abbrev params : ProtocolParamsSnapshot
params = record {
  a = "a";
  s_a_bitcoin = "s";
  s_a_monero = "m";
  v_a = none;
  cancel_timelock = 72;
  punish_timelock = 144;
  remaining_refund_timelock = none;
  redeem_address = "r";
  punish_address = "p";
  tx_cancel_fee_sats = 1;
  tx_refund_fee_sats = 1;
  tx_redeem_fee_sats = 1;
  tx_punish_fee_sats = 1;
  amnesty_amount_sats = none;
  tx_partial_refund_fee_sats = none;
  tx_reclaim_fee_sats = none;
  tx_withhold_fee_sats = none;
  tx_mercy_fee_sats = none;
  monero_lock_address = none;
  xmr_amount_pico = "";
  tx_full_refund_encsig = none;
  tx_partial_refund_encsig = none;
  tx_cancel_sig = none;
}

abbrev input : SnapshotInput
input = record {
  swap_id = "1";
  external_swap_id = "2";
  keystore_id = "k";
  network = "testnet";
  captured_by_version = "1.0";
  captured_at_epoch_ms = 5;
  protocol_params = params;
  lock_tx = record {
    txid = "t";
    vout = 0;
    amount_sats = printed 9;
    unsigned_psbt = "u";
    lock_address = "l";
  };
  maker = record { peer_id = ""; multiaddrs = [] };
  chain = record {
    monero_wallet_restore_blockheight = none;
    lock_transfer_proof = none;
    sidecar_state_at_capture = "pending";
  };
}

abbrev swap_of : SnapshotBody → String
swap_of body = body.input.swap_id

abbrev tampered : SnapshotBody
tampered = record {
  version = 2;
  captured_by = "miradex-client";
  phase_marker = "funded-with-encsigs";
  input = record input { swap_id = "9" };
}
