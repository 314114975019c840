-- ===== src/Protocol.antt =====
-- src/wire/server/swap.zod.ts (the protocol parameters and the detail of a swap, as far as the
-- drivers read them) and src/atomic-swap/extract.ts. An absent or null field is `none`.
use Prim.Native.String.{String}
use miradex_client.Prelude.{
  ℕ, Bool, false, not, ◌&&◌, Option, none, some, List, str_eq, if◌then◌else◌,
}

-- `x ?? ''`, and whether a nullable text is truthy.
abbrev pub or_empty : Option String → String
or_empty none = ""
or_empty (some s) = s

abbrev pub present : Option String → Bool
present none = false
present (some s) = not (str_eq s "")

-- `a ?? b`
abbrev pub or_else {ℓ} : {A : Type ℓ} → Option A → Option A → Option A
or_else none b = b
or_else (some a) b = some a

abbrev pub or_value {ℓ} : {A : Type ℓ} → Option A → A → A
or_value none d = d
or_value (some a) d = a

pub record ProtocolParams : Type 0 where
  pub a : String
  pub s_a_bitcoin : String
  pub s_a_monero : Option String
  pub dleq_proof_s_a : Option String
  pub v_a : Option String
  pub cancel_timelock : ℕ
  pub punish_timelock : ℕ
  pub remaining_refund_timelock : Option ℕ
  pub redeem_address : String
  pub punish_address : String
  pub tx_cancel_fee_sats : ℕ
  pub tx_refund_fee_sats : ℕ
  pub tx_redeem_fee_sats : ℕ
  pub tx_punish_fee_sats : ℕ
  pub amnesty_amount_sats : Option ℕ
  pub tx_partial_refund_fee_sats : Option ℕ
  pub tx_reclaim_fee_sats : Option ℕ
  pub tx_withhold_fee_sats : Option ℕ
  pub tx_mercy_fee_sats : Option ℕ
  pub tx_full_refund_encsig : Option String
  pub tx_partial_refund_encsig : Option String
  pub tx_cancel_sig : Option String
  pub tx_redeem_digest : Option String
  pub monero_lock_address : Option String
  pub xmr_amount_pico : Option String
  pub monero_tx_hash : Option String
  pub monero_tx_key : Option String
  pub monero_restore_height : Option ℕ
  pub combined_view_key : Option String
  pub maker_peer_id : Option String
  pub maker_multiaddrs : Option (List String)

-- `protocolData`: that of an atomic swap, with its parameters if they are there, or another.
pub data ProtocolData : Type 0 where
  atomic_swap : Option ProtocolParams → ProtocolData
  other_protocol : ProtocolData

-- The detail of a swap. Of `verification` the driver reads only whether it is there.
pub record SwapDetail : Type 0 where
  pub status : String
  pub action : Option String
  pub swap_number : String
  pub deposit_address : Option String
  pub deposit_tx_hash : Option String
  pub amount_in : Option String
  pub has_verification : Bool
  pub protocol_data : Option ProtocolData

pub record LockTransferProof : Type 0 where
  pub tx_hash : String
  pub tx_key : Option String

pub record XmrVerificationData : Type 0 where
  pub lock_transfer_proof : LockTransferProof
  pub combined_view_key : String
  pub monero_lock_address : String
  pub xmr_amount_pico : String
  pub monero_restore_height : Option ℕ

pub record ExtractedProtocolData : Type 0 where
  pub params : Option ProtocolParams
  pub redeem_digest_hex : Option String
  pub lock_address : Option String
  pub timelock_blocks : Option ℕ
  pub xmr_verification : Option XmrVerificationData
  pub maker_peer_id : Option String
  pub maker_multiaddrs : Option (List String)
  pub alice_tx_cancel_sig : Option String

abbrev pub nothing_extracted : ExtractedProtocolData
nothing_extracted = record {
  params = none;
  redeem_digest_hex = none;
  lock_address = none;
  timelock_blocks = none;
  xmr_verification = none;
  maker_peer_id = none;
  maker_multiaddrs = none;
  alice_tx_cancel_sig = none;
}

unfoldable pub extract_xmr_verification : ProtocolParams → Option XmrVerificationData
extract_xmr_verification p =
    if present p.monero_tx_hash && present p.monero_lock_address && present p.xmr_amount_pico
    then some (record {
      lock_transfer_proof = record {
        tx_hash = or_empty p.monero_tx_hash;
        tx_key = p.monero_tx_key;
      };
      combined_view_key = or_empty p.combined_view_key;
      monero_lock_address = or_empty p.monero_lock_address;
      xmr_amount_pico = or_empty p.xmr_amount_pico;
      monero_restore_height = p.monero_restore_height;
    })
    else none

unfoldable pub extract_params : Option ProtocolData → Option ProtocolParams
extract_params none = none
extract_params (some (atomic_swap params)) = params
extract_params (some other_protocol) = none

extract_from : Option ProtocolParams → Option String → ExtractedProtocolData
extract_from none deposit_address = nothing_extracted
extract_from (some p) deposit_address = record {
  params = some p;
  redeem_digest_hex = p.tx_redeem_digest;
  lock_address = deposit_address;
  timelock_blocks = some p.cancel_timelock;
  xmr_verification = extract_xmr_verification p;
  maker_peer_id = p.maker_peer_id;
  maker_multiaddrs = p.maker_multiaddrs;
  alice_tx_cancel_sig = p.tx_cancel_sig;
}

unfoldable pub extract_protocol_data : SwapDetail → ExtractedProtocolData
unfolding extract_from extract_params
extract_protocol_data detail =
    extract_from (extract_params detail.protocol_data) detail.deposit_address

-- What `protocolParamsSchema` lets through: a `z.object` keeps the keys that it lists and drops
-- all others. Of the fields above it lists all but three.
unfoldable pub parse_params : ProtocolParams → ProtocolParams
parse_params p = record p { tx_redeem_digest = none; maker_peer_id = none; maker_multiaddrs = none }

unfoldable pub parse_protocol_data : ProtocolData → ProtocolData
unfolding parse_params
parse_protocol_data (atomic_swap none) = atomic_swap none
parse_protocol_data (atomic_swap (some p)) = atomic_swap (some (parse_params p))
parse_protocol_data other_protocol = other_protocol
