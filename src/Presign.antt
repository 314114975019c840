-- ===== src/Presign.antt =====
-- src/atomic-swap/presign.ts: the transactions that Bob signs in advance, with the default policies
-- for fees, dust and the amnesty. A transaction is the amount it spends, its BIP68 sequence, its
-- address (none: the script of both keys) and its output; hashes and signatures are left out.
-- The value of the lock output, or the exception of decoding the lock transaction, is given. Fees
-- and the amnesty are natural numbers; the source refuses negative ones. A difference that would be
-- negative is 0 here, and is refused as dust in both cases.
pub mod Plans
pub mod Chains
mod Tests
use Prim.Native.String.{String}
use miradex_client.Prelude.{
  ℕ, ◌-◌, ◌*◌, Bool, false, ◌&&◌, ◌||◌, Option, none, some, ltb, if◌then◌else◌,
}
use miradex_client.Errors.Codes.{
  Result, ok, err, verification_error, plain_error, e_timelock_out_of_range, e_fee_below_relay,
  e_fee_above_cap, e_output_dust, e_amnesty_exceeds_cap,
}
use miradex_client.Protocol.{ProtocolParams, or_value}

infixl 5 ◌>>=◌ ◌>>◌
abbrev pub ◌>>=◌ : {A B : Type 0} → Result A → (A → Result B) → Result B
err failure >>= next_step = err failure
ok value >>= next_step = next_step value

abbrev pub ◌>>◌ : {B : Type 0} → Result (Unit {0}) → Result B → Result B
err failure >> rest = err failure
ok done >> rest = rest

abbrev pub sequence_final : ℕ
sequence_final = 4294967295

abbrev pub vbytes_single_in_single_out : ℕ
vbytes_single_in_single_out = 154

abbrev pub vbytes_single_in_two_out : ℕ
vbytes_single_in_two_out = 187

-- `DEFAULT_FEE_POLICY`, `DEFAULT_AMNESTY_POLICY` and `DEFAULT_DUST_POLICY`
abbrev pub min_relay_sats_per_vbyte : ℕ
min_relay_sats_per_vbyte = 1

abbrev pub max_sats_per_vbyte : ℕ
max_sats_per_vbyte = 500

abbrev pub max_ratio_bps : ℕ
max_ratio_bps = 2000

abbrev pub p2wpkh_floor : ℕ
p2wpkh_floor = 294

abbrev pub p2wsh_floor : ℕ
p2wsh_floor = 330

unfoldable pub require_timelock_in_bounds : (value lowest highest : ℕ) → Result (Unit {0})
require_timelock_in_bounds value lowest highest =
    if ltb value lowest || ltb highest value
    then err (verification_error e_timelock_out_of_range)
    else ok tt

unfoldable pub require_fee_in_bounds : (fee_sats weight_vbytes : ℕ) → Result (Unit {0})
require_fee_in_bounds fee_sats weight_vbytes =
    if ltb fee_sats (min_relay_sats_per_vbyte * weight_vbytes)
    then err (verification_error e_fee_below_relay)
    else if ltb (max_sats_per_vbyte * weight_vbytes) fee_sats
    then err (verification_error e_fee_above_cap)
    else ok tt

unfoldable pub require_above_dust : (output_sats floor : ℕ) → Result (Unit {0})
require_above_dust output_sats floor =
    if ltb output_sats floor then err (verification_error e_output_dust) else ok tt

pub record SpendTx : Type 0 where
  pub input_sats : ℕ
  pub sequence : ℕ
  pub address : Option String
  pub output_sats : ℕ

pub record AmnestyPlan : Type 0 where
  pub refund_sats : ℕ
  pub amnesty_sats : ℕ
  pub tx_reclaim : SpendTx
  pub tx_withhold : SpendTx
  pub tx_mercy : SpendTx

pub record Plan : Type 0 where
  pub tx_cancel : SpendTx
  pub tx_punish : SpendTx
  pub tx_early_refund : SpendTx
  pub amnesty : Option AmnestyPlan

-- A transaction with one output to the script of both keys: its fee and its output are checked.
unfoldable pub script_spend : (input_sats fee_sats sequence : ℕ) → Result SpendTx
script_spend input_sats fee_sats sequence = do
  require_fee_in_bounds fee_sats vbytes_single_in_single_out
  require_above_dust (input_sats - fee_sats) p2wsh_floor
  ok (record {
    input_sats = input_sats;
    sequence = sequence;
    address = none;
    output_sats = input_sats - fee_sats;
  })

-- The same for an output to an address, which `buildSpendTx` decodes.
unfoldable pub address_spend :
    (is_address : String → Bool) (input_sats fee_sats sequence : ℕ) (address : String)
    → Result SpendTx
address_spend is_address input_sats fee_sats sequence address = do
  require_fee_in_bounds fee_sats vbytes_single_in_single_out
  require_above_dust (input_sats - fee_sats) p2wpkh_floor
  if is_address address
      then ok (record {
        input_sats = input_sats;
        sequence = sequence;
        address = some address;
        output_sats = input_sats - fee_sats;
      })
      else err plain_error

-- A number that is there and is not 0.
abbrev pub is_positive : Option ℕ → Bool
is_positive none = false
is_positive (some n) = ltb 0 n

abbrev pub has_amnesty_terms : ProtocolParams → Bool
has_amnesty_terms p =
    ltb 0 (or_value p.amnesty_amount_sats 0)
    && is_positive p.tx_partial_refund_fee_sats
    && is_positive p.tx_reclaim_fee_sats
    && is_positive p.tx_withhold_fee_sats
    && is_positive p.tx_mercy_fee_sats
    && is_positive p.remaining_refund_timelock

module _ (is_address : String → Bool) (refund_address : String) where
  unfoldable pub plan_amnesty : ProtocolParams → (cancel_sats amnesty_sats : ℕ) → Result AmnestyPlan
  plan_amnesty p cancel_sats amnesty_sats = do
    let partial_fee = or_value p.tx_partial_refund_fee_sats 0
    let refund_sats = cancel_sats - amnesty_sats - partial_fee
    require_fee_in_bounds partial_fee vbytes_single_in_two_out
    require_above_dust refund_sats p2wpkh_floor
    require_above_dust amnesty_sats p2wsh_floor
    tx_reclaim ←
        address_spend is_address amnesty_sats (or_value p.tx_reclaim_fee_sats 0)
          (or_value p.remaining_refund_timelock 0) refund_address
    tx_withhold ← script_spend amnesty_sats (or_value p.tx_withhold_fee_sats 0) sequence_final
    tx_mercy ←
        address_spend is_address tx_withhold.output_sats (or_value p.tx_mercy_fee_sats 0)
          sequence_final refund_address
    ok (record {
      refund_sats = refund_sats;
      amnesty_sats = amnesty_sats;
      tx_reclaim = tx_reclaim;
      tx_withhold = tx_withhold;
      tx_mercy = tx_mercy;
    })

  unfoldable pub plan_optional : ProtocolParams → (cancel_sats : ℕ) → Result (Option AmnestyPlan)
  plan_optional p cancel_sats =
      if has_amnesty_terms p
      then (do plan ← plan_amnesty p cancel_sats (or_value p.amnesty_amount_sats 0); ok (some plan))
      else ok none

  unfoldable pub plan_from_lock : ProtocolParams → (lock_sats : ℕ) → Result Plan
  plan_from_lock p lock_sats = do
    if ltb (lock_sats * max_ratio_bps) (or_value p.amnesty_amount_sats 0 * 10000)
        then err (verification_error e_amnesty_exceeds_cap)
        else ok tt
    tx_cancel ← script_spend lock_sats p.tx_cancel_fee_sats p.cancel_timelock
    tx_punish ←
        address_spend is_address tx_cancel.output_sats p.tx_punish_fee_sats p.punish_timelock
          p.punish_address
    tx_early_refund ←
        address_spend is_address lock_sats p.tx_refund_fee_sats sequence_final refund_address
    amnesty ← plan_optional p tx_cancel.output_sats
    ok (record {
      tx_cancel = tx_cancel;
      tx_punish = tx_punish;
      tx_early_refund = tx_early_refund;
      amnesty = amnesty;
    })

  -- The bounds of `remaining_refund_timelock` count where it is there.
  unfoldable pub compute_pre_sigs : ProtocolParams → (lock_value : Result ℕ) → Result Plan
  compute_pre_sigs p lock_value = do
    require_timelock_in_bounds p.cancel_timelock 5 288
    require_timelock_in_bounds p.punish_timelock 5 288
    require_timelock_in_bounds (or_value p.remaining_refund_timelock 1) 1 288
    lock_sats ← lock_value
    plan_from_lock p lock_sats

-- TxRedeem, whose digest `computeRedeemDigestFromTxLock` gives.
unfoldable pub redeem_spend :
    (is_address : String → Bool) → ProtocolParams → (lock_value : Result ℕ) → Result SpendTx
redeem_spend is_address p lock_value = do
  lock_sats ← lock_value
  address_spend is_address lock_sats p.tx_redeem_fee_sats sequence_final p.redeem_address
