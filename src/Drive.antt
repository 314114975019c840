-- ===== src/Drive.antt =====
-- src/atomic-swap/drive.ts: the loop that takes a swap from its creation to its end.
-- This file has the state of the loop, what the world answers in one round, and what the driver
-- does to it. The branches are in Fund.antt (with Store.antt) and Encsig.antt, the loop in Loop.antt.
-- Log lines and the texts of progress messages are left out.
pub mod Acts
pub mod Store
pub mod Fund
pub mod Encsig
pub mod Loop
pub mod Events
pub mod Funding
pub mod Clearance
pub mod Guarded
pub mod Release
pub mod Rounds
pub mod Runs
pub mod Stored
pub mod Limits
pub mod Counts
pub mod Refusals
pub mod Deadline
mod Tests
use Prim.Native.String.{String}
use miradex_client.Prelude.{ℕ, Bool, false, Option, none, List}
use miradex_client.Errors.Codes.{Result, Failure}
use miradex_client.Protocol.{ProtocolParams, SwapDetail, XmrVerificationData}
use miradex_client.Snapshot.{AmountText, ProtocolSnapshot, SnapshotBody}

-- `UnsignedFundingPsbt` of src/lib/bitcoin/wallet.ts
pub record UnsignedPsbt : Type 0 where
  pub psbt : String
  pub txid : String
  pub vout : ℕ
  pub amount_sats : ℕ

pub record PresigsEncsig : Type 0 where
  pub tx_full_refund_encsig : Option String
  pub tx_partial_refund_encsig : Option String
  pub tx_cancel_sig : Option String
  pub tx_lock_txid : Option String
  pub tx_lock_vout : Option ℕ
  pub tx_lock_amount_sats : Option AmountText

abbrev pub empty_presigs_encsig : PresigsEncsig
empty_presigs_encsig = record {
  tx_full_refund_encsig = none;
  tx_partial_refund_encsig = none;
  tx_cancel_sig = none;
  tx_lock_txid = none;
  tx_lock_vout = none;
  tx_lock_amount_sats = none;
}

-- The operations of the other components that the driver calls at its keys, wallet and network
-- (presign.ts, lib/bitcoin/wallet.ts, lib/crypto), and its constant options. Those that can throw
-- return a `Result`.
pub record Services : Type 0 where
  pub derive_lock_address : (a b : String) → Result String
  pub build_funding_psbt :
      (lock_address : String) (lock_amount_sats : Option ℕ) → Result UnsignedPsbt
  pub sign_psbt : String → Result String
  pub compute_pre_sigs : (signed : String) → ProtocolParams → Result String
  pub redeem_digest : (signed : String) → ProtocolParams → Result String
  pub redeem_digest_of_tx : (tx_hex : String) → ProtocolParams → Result String
  pub encsign_digest : (s_a_bitcoin digest : String) → Result String
  pub verify_dleq_proof : (s_a_bitcoin s_a_monero proof : String) → Bool
  pub add_points : (s_a_monero s_b_monero : String) → Result String
  pub sats_of : String → ℕ
  pub snapshot_digest : SnapshotBody → String
  pub swap_id : String
  pub keystore_id : String
  pub network : String
  pub client_version : Option String
  pub b_pub : String
  pub b_secret : String
  pub s_b_monero : Option String
  pub refund_address : String
  pub maker_peer_id : Option String
  pub maker_multiaddrs : Option (List String)
  pub has_blockchain : Bool
  pub saves_snapshots : Bool
  pub loads_snapshots : Bool

-- The answer to POST /presigs: accepted, with what its body holds (none: no object), or refused
-- with a message.
pub data PresigsAnswer : Type 0 where
  presigs_accepted : Option PresigsEncsig → PresigsAnswer
  presigs_refused : (message : String) → PresigsAnswer

-- `verifyXmrLocked`
pub record XmrLockResult : Type 0 where
  pub verified : Bool
  pub retryable : Bool

-- What the world answers in one round, should the driver ask. A text answer to /fund or
-- /submit_encsig is the message of the error.
pub record Tick : Type 0 where
  pub aborted : Bool
  pub detail : Result SwapDetail
  pub now : ℕ
  pub contract_verified : Result Bool
  pub presigs : PresigsAnswer
  pub existing_snapshot : Option String
  pub snapshot_saved : Bool
  pub fund_answer : ℕ → Option String
  pub funded_now : ℕ
  pub xmr_lock : Result XmrLockResult
  pub lock_tx : Result String
  pub encsig_answer : Option String
  pub sweep : Result String
  pub aborted_asleep : Bool

-- What the driver does, oldest first.
pub data Event : Type 0 where
  progress : (stage : String) → Event
  dleq_checked : (s_a_bitcoin s_a_monero proof : String) → Bool → Event
  contract_checked : (deposit_address : String) → Bool → Event
  post_presigs : (unsigned target pre_sigs : String) → Event
  snapshot_found : Event
  snapshot_written : ProtocolSnapshot → Event
  post_fund : (signed : String) → Event
  xmr_checked : (tx_hash spend_pub amount : String) → Bool → Event
  post_encsig : (encsig : String) → Event
  swept : (tx_hash : String) → Event

-- The variables of `driveSwapToCompletion` that live across rounds.
pub record State : Type 0 where
  pub last_signed_psbt : String
  pub last_funded_address : String
  pub funded_at : ℕ
  pub verification_emitted : Bool
  pub encsig_failures : ℕ
  pub alice_dleq_verified : Bool
  pub xmr_lock_verified : Bool
  pub presigs_streak : ℕ

abbrev pub initial : State
initial = record {
  last_signed_psbt = "";
  last_funded_address = "";
  funded_at = 0;
  verification_emitted = false;
  encsig_failures = 0;
  alice_dleq_verified = false;
  xmr_lock_verified = false;
  presigs_streak = 0;
}

-- How a piece of a round goes on: to what follows it with a value, to `delay` and the next round
-- (`continue`), out of the function (`return`), or out by an exception.
pub data Flow (A : Type 0) : Type 0 where
  next : A → Flow A
  again : Flow A
  stop : Flow A
  fail : Failure → Flow A
