-- ===== src/Snapshot.antt =====
-- src/atomic-swap/snapshot.ts: the recovery snapshot. The digest, SHA-256 over canonical JSON, is
-- a function of the body. Numbers that the snapshot prints in decimal are kept as numbers.
pub mod Integrity
mod Tests
use Prim.Native.String.{String}
use miradex_client.Prelude.{ℕ, Bool, Option, List, str_eq}

abbrev pub snapshot_version : ℕ
snapshot_version = 2

-- An amount as a text: printed from a number here, or as the server sent it.
pub data AmountText : Type 0 where
  printed : ℕ → AmountText
  sent : String → AmountText

pub record ProtocolParamsSnapshot : Type 0 where
  pub a : String
  pub s_a_bitcoin : String
  pub s_a_monero : String
  pub v_a : Option String
  pub cancel_timelock : ℕ
  pub punish_timelock : ℕ
  pub remaining_refund_timelock : Option ℕ
  pub redeem_address : String
  pub punish_address : String
  pub tx_cancel_fee_sats : ℕ
  pub tx_refund_fee_sats : ℕ
  pub tx_redeem_fee_sats : ℕ
  pub tx_punish_fee_sats : ℕ
  pub amnesty_amount_sats : Option ℕ
  pub tx_partial_refund_fee_sats : Option ℕ
  pub tx_reclaim_fee_sats : Option ℕ
  pub tx_withhold_fee_sats : Option ℕ
  pub tx_mercy_fee_sats : Option ℕ
  pub monero_lock_address : Option String
  pub xmr_amount_pico : String
  pub tx_full_refund_encsig : Option String
  pub tx_partial_refund_encsig : Option String
  pub tx_cancel_sig : Option String

pub record LockTxSnapshot : Type 0 where
  pub txid : String
  pub vout : ℕ
  pub amount_sats : AmountText
  pub unsigned_psbt : String
  pub lock_address : String

pub record MakerSnapshot : Type 0 where
  pub peer_id : String
  pub multiaddrs : List String

pub record LockProofSnapshot : Type 0 where
  pub tx_hash : String
  pub tx_key : Option String

pub record ChainSnapshot : Type 0 where
  pub monero_wallet_restore_blockheight : Option ℕ
  pub lock_transfer_proof : Option LockProofSnapshot
  pub sidecar_state_at_capture : String

-- `BuildProtocolSnapshotInput`; its phase marker has one value and is left out.
pub record SnapshotInput : Type 0 where
  pub swap_id : String
  pub external_swap_id : String
  pub keystore_id : String
  pub network : String
  pub captured_by_version : String
  pub captured_at_epoch_ms : ℕ
  pub protocol_params : ProtocolParamsSnapshot
  pub lock_tx : LockTxSnapshot
  pub maker : MakerSnapshot
  pub chain : ChainSnapshot

-- Every field of the snapshot but the digest.
pub record SnapshotBody : Type 0 where
  pub version : ℕ
  pub captured_by : String
  pub phase_marker : String
  pub input : SnapshotInput

pub record ProtocolSnapshot : Type 0 where
  pub body : SnapshotBody
  pub digest : String

module _ (compute_digest : SnapshotBody → String) where
  unfoldable pub build_protocol_snapshot : SnapshotInput → ProtocolSnapshot
  build_protocol_snapshot input =
      let body : SnapshotBody = record {
        version = snapshot_version;
        captured_by = "miradex-client";
        phase_marker = "funded-with-encsigs";
        input = input;
      } in
      record { body = body; digest = compute_digest body }

  unfoldable pub verify_snapshot_integrity : ProtocolSnapshot → Bool
  verify_snapshot_integrity s = str_eq (compute_digest s.body) s.digest
