-- ===== src/Presign/Tests.antt =====
-- Transactions of src/atomic-swap/presign.ts for a sample lock, with an amnesty.
use Prim.Native.String.{String}
use miradex_client.Prelude.{◌≡◌, refl, Bool, true, none, some}
use miradex_client.Errors.Codes.{ok, err, verification_error, e_timelock_out_of_range}
use miradex_client.Protocol.{ProtocolParams}
use miradex_client.Presign.{
  SpendTx, AmnestyPlan, Plan, sequence_final, require_timelock_in_bounds, require_fee_in_bounds,
  require_above_dust, script_spend, address_spend, plan_amnesty, plan_optional, plan_from_lock,
  compute_pre_sigs,
}
use miradex_client.Presign.Plans.{IsSafe, compute_pre_sigs-IsSafe}

abbrev params : ProtocolParams
params = record {
  a = "a";
  s_a_bitcoin = "s_a_bitcoin";
  s_a_monero = some "s_a_monero";
  dleq_proof_s_a = some "proof";
  v_a = none;
  cancel_timelock = 72;
  punish_timelock = 144;
  remaining_refund_timelock = some 2;
  redeem_address = "redeem";
  punish_address = "punish";
  tx_cancel_fee_sats = 1000;
  tx_refund_fee_sats = 1000;
  tx_redeem_fee_sats = 1000;
  tx_punish_fee_sats = 1000;
  amnesty_amount_sats = some 100000;
  tx_partial_refund_fee_sats = some 1000;
  tx_reclaim_fee_sats = some 1000;
  tx_withhold_fee_sats = some 1000;
  tx_mercy_fee_sats = some 1000;
  tx_full_refund_encsig = none;
  tx_partial_refund_encsig = none;
  tx_cancel_sig = none;
  tx_redeem_digest = some "digest";
  monero_lock_address = some "monero_lock";
  xmr_amount_pico = some "1000000000000";
  monero_tx_hash = some "monero_tx";
  monero_tx_key = none;
  monero_restore_height = none;
  combined_view_key = some "view";
  maker_peer_id = none;
  maker_multiaddrs = none;
}

abbrev any_address : String → Bool
any_address address = true

abbrev amnesty : AmnestyPlan
amnesty = record {
  refund_sats = 898000;
  amnesty_sats = 100000;
  tx_reclaim = record {
    input_sats = 100000;
    sequence = 2;
    address = some "refund";
    output_sats = 99000;
  };
  tx_withhold = record {
    input_sats = 100000;
    sequence = sequence_final;
    address = none;
    output_sats = 99000;
  };
  tx_mercy = record {
    input_sats = 99000;
    sequence = sequence_final;
    address = some "refund";
    output_sats = 98000;
  };
}

abbrev plan : Plan
plan = record {
  tx_cancel = record { input_sats = 1000000; sequence = 72; address = none; output_sats = 999000 };
  tx_punish = record {
    input_sats = 999000;
    sequence = 144;
    address = some "punish";
    output_sats = 998000;
  };
  tx_early_refund = record {
    input_sats = 1000000;
    sequence = sequence_final;
    address = some "refund";
    output_sats = 999000;
  };
  amnesty = some amnesty;
}

planned : compute_pre_sigs any_address "refund" params (ok 1000000) ≡ ok plan
unfolding compute_pre_sigs plan_from_lock plan_optional plan_amnesty script_spend address_spend
    require_timelock_in_bounds require_fee_in_bounds require_above_dust
planned = refl

compute_pre_sigs-IsSafe_example : IsSafe "refund" params 1000000 plan
compute_pre_sigs-IsSafe_example =
    compute_pre_sigs-IsSafe any_address "refund" params 1000000 plan planned

-- A punish timelock of 0 would let Alice punish at once.
instant_punish :
    compute_pre_sigs any_address "refund" (record params { punish_timelock = 0 }) (ok 1000000)
    ≡ err (verification_error e_timelock_out_of_range)
unfolding compute_pre_sigs require_timelock_in_bounds
instant_punish = refl

abbrev redeem : SpendTx
redeem = record {
  input_sats = 1000000;
  sequence = sequence_final;
  address = some "redeem";
  output_sats = 999000;
}
