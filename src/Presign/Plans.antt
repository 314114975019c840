-- ===== src/Presign/Plans.antt =====
-- What a set of transactions that src/atomic-swap/presign.ts signs in advance keeps to.
use Prim.Native.String.{String}
use miradex_client.Prelude.{
  ℕ, ◌+◌, ◌*◌, ◌≡◌, refl, ◌≤◌, Bool, true, false, Option, none, some, arith, ◌⊎◌, inl, inr,
}
use miradex_client.Errors.Codes.{ok}
use miradex_client.Protocol.{ProtocolParams, or_value}
use miradex_client.Presign.{
  SpendTx, AmnestyPlan, Plan, sequence_final, p2wpkh_floor, p2wsh_floor, require_timelock_in_bounds,
  require_fee_in_bounds, require_above_dust, script_spend, address_spend, plan_amnesty,
  plan_optional, plan_from_lock, compute_pre_sigs, redeem_spend, has_amnesty_terms,
}

-- The transaction spends this amount with this sequence to this address, loses the fee and no
-- more, the fee is between 1 and 500 satoshis for each of 154 vbytes, and the output is no dust.
pub record IsSound (input sequence fee floor : ℕ) (address : Option String) (tx : SpendTx)
    : Type 0 where
  pub spends : tx.input_sats ≡ input
  pub waits : tx.sequence ≡ sequence
  pub pays : tx.address ≡ address
  pub balance : input ≡ tx.output_sats + fee
  pub fee_floor : 154 ≤ fee
  pub fee_cap : fee ≤ 77000
  pub dust : floor ≤ tx.output_sats

script_spend-IsSound :
    (input fee sequence : ℕ) (tx : SpendTx)
    → script_spend input fee sequence ≡ ok tx
    → IsSound input sequence fee p2wsh_floor none tx
unfolding script_spend require_fee_in_bounds require_above_dust
script_spend-IsSound input fee sequence tx e = record {
  spends = ground arith;
  waits = ground arith;
  pays = ground arith;
  balance = ground arith;
  fee_floor = ground arith;
  fee_cap = ground arith;
  dust = ground arith;
}

address_spend-IsSound :
    (is_address : String → Bool) (input fee sequence : ℕ) (address : String) (tx : SpendTx)
    → address_spend is_address input fee sequence address ≡ ok tx
    → IsSound input sequence fee p2wpkh_floor (some address) tx
unfolding address_spend require_fee_in_bounds require_above_dust
address_spend-IsSound is_address input fee sequence address tx e = record {
  spends = ground arith;
  waits = ground arith;
  pays = ground arith;
  balance = ground arith;
  fee_floor = ground arith;
  fee_cap = ground arith;
  dust = ground arith;
}

-- The amnesty's transactions: TxPartialRefund splits what TxCancel left into refund, amnesty and
-- fee, the rest spends the amnesty.
pub record IsSplit (refund_address : String) (p : ProtocolParams) (cancel_sats : ℕ)
    (a : AmnestyPlan) : Type 0 where
  pub share : a.amnesty_sats ≡ or_value p.amnesty_amount_sats 0
  pub split : cancel_sats ≡ a.refund_sats + a.amnesty_sats + or_value p.tx_partial_refund_fee_sats 0
  pub fee_floor : 187 ≤ or_value p.tx_partial_refund_fee_sats 0
  pub fee_cap : or_value p.tx_partial_refund_fee_sats 0 ≤ 93500
  pub refund_dust : p2wpkh_floor ≤ a.refund_sats
  pub amnesty_dust : p2wsh_floor ≤ a.amnesty_sats
  pub reclaim :
      IsSound a.amnesty_sats
        (or_value p.remaining_refund_timelock 0)
        (or_value p.tx_reclaim_fee_sats 0)
        p2wpkh_floor
        (some refund_address)
        a.tx_reclaim
  pub withhold :
      IsSound a.amnesty_sats sequence_final
        (or_value p.tx_withhold_fee_sats 0)
        p2wsh_floor
        none
        a.tx_withhold
  pub mercy :
      IsSound a.tx_withhold.output_sats sequence_final
        (or_value p.tx_mercy_fee_sats 0)
        p2wpkh_floor
        (some refund_address)
        a.tx_mercy

plan_amnesty-IsSplit :
    (is_address : String → Bool) (refund_address : String) (p : ProtocolParams) (cancel_sats : ℕ)
    (a : AmnestyPlan)
    → plan_amnesty is_address refund_address p cancel_sats (or_value p.amnesty_amount_sats 0) ≡ ok a
    → IsSplit refund_address p cancel_sats a
unfolding plan_amnesty require_fee_in_bounds require_above_dust
plan_amnesty-IsSplit is_address refund_address p cancel_sats a e = record {
  share = ground arith;
  split = ground arith;
  fee_floor = ground arith;
  fee_cap = ground arith;
  refund_dust = ground arith;
  amnesty_dust = ground arith;
  reclaim = address_spend-IsSound is_address _ _ _ _ a.tx_reclaim (ground arith);
  withhold = script_spend-IsSound _ _ _ a.tx_withhold (ground arith);
  mercy = address_spend-IsSound is_address _ _ _ _ a.tx_mercy (ground arith);
}

-- TxCancel and TxEarlyRefund spend the lock and TxPunish spends TxCancel, each by `IsSound`; Bob
-- has at least 5 blocks for each step and at most 288; the amnesty is at most a fifth of the lock,
-- and its transactions are there exactly if all of its terms are, by `IsSplit`.
pub record IsSafe (refund_address : String) (p : ProtocolParams) (lock_sats : ℕ) (plan : Plan)
    : Type 0 where
  pub cancel :
      IsSound lock_sats p.cancel_timelock p.tx_cancel_fee_sats p2wsh_floor none plan.tx_cancel
  pub punish :
      IsSound plan.tx_cancel.output_sats p.punish_timelock p.tx_punish_fee_sats p2wpkh_floor
        (some p.punish_address)
        plan.tx_punish
  pub early_refund :
      IsSound lock_sats sequence_final p.tx_refund_fee_sats p2wpkh_floor
        (some refund_address)
        plan.tx_early_refund
  pub cancel_window : (5 ≤ p.cancel_timelock) × (p.cancel_timelock ≤ 288)
  pub punish_window : (5 ≤ p.punish_timelock) × (p.punish_timelock ≤ 288)
  pub amnesty_cap : 5 * or_value p.amnesty_amount_sats 0 ≤ lock_sats
  pub amnesty :
      ((has_amnesty_terms p ≡ false) × (plan.amnesty ≡ none))
      ⊎ ((has_amnesty_terms p ≡ true)
          × ((a : AmnestyPlan) × (plan.amnesty ≡ some a)
              × IsSplit refund_address p plan.tx_cancel.output_sats a))

plan_optional_cases :
    (is_address : String → Bool) (refund_address : String) (p : ProtocolParams) (cancel_sats : ℕ)
    (o : Option AmnestyPlan)
    → plan_optional is_address refund_address p cancel_sats ≡ ok o
    → ((has_amnesty_terms p ≡ false) × (o ≡ none))
      ⊎ ((has_amnesty_terms p ≡ true)
          × ((a : AmnestyPlan) × (o ≡ some a) × IsSplit refund_address p cancel_sats a))
unfolding plan_optional
plan_optional_cases is_address refund_address p cancel_sats none e = inl (ground arith, refl)
plan_optional_cases is_address refund_address p cancel_sats (some a) e = inr (
  ground arith,
  (a, refl, plan_amnesty-IsSplit is_address refund_address p cancel_sats a (ground arith)),
)

-- Whatever the server's parameters, the transactions that are signed in advance for a lock of some
-- value spend the lock and each other without a loss but their fees, each fee is between 1 and 500
-- sat/vB, no output is dust, the cancel and punish timelocks are between 5 and 288 blocks, the
-- amnesty is at most a fifth of the lock, and its transactions are there exactly if all of its terms
-- are (see `IsSafe`).
pub compute_pre_sigs-IsSafe :
    (is_address : String → Bool) (refund_address : String) (p : ProtocolParams) (lock_sats : ℕ)
    (plan : Plan)
    → compute_pre_sigs is_address refund_address p (ok lock_sats) ≡ ok plan
    → IsSafe refund_address p lock_sats plan
unfolding compute_pre_sigs plan_from_lock require_timelock_in_bounds
compute_pre_sigs-IsSafe is_address refund_address p lock_sats plan e = record {
  cancel = script_spend-IsSound _ _ _ plan.tx_cancel (ground arith);
  punish = address_spend-IsSound is_address _ _ _ _ plan.tx_punish (ground arith);
  early_refund = address_spend-IsSound is_address _ _ _ _ plan.tx_early_refund (ground arith);
  cancel_window = ground arith;
  punish_window = ground arith;
  amnesty_cap = ground arith;
  amnesty =
      plan_optional_cases is_address refund_address p plan.tx_cancel.output_sats plan.amnesty
        (ground arith);
}

-- TxRedeem, over whose digest the encrypted signature is made, pays the redeem address of the
-- parameters all of the lock but the fee, which is within its bounds, and is no dust.
pub redeem_spend-IsSound :
    (is_address : String → Bool) (p : ProtocolParams) (lock_sats : ℕ) (tx : SpendTx)
    → redeem_spend is_address p (ok lock_sats) ≡ ok tx
    → IsSound lock_sats sequence_final p.tx_redeem_fee_sats p2wpkh_floor (some p.redeem_address) tx
unfolding redeem_spend
redeem_spend-IsSound is_address p lock_sats tx e = address_spend-IsSound is_address _ _ _ _ tx e
