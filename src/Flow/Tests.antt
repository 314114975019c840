-- ===== src/Flow/Tests.antt =====
-- A sample run of src/engine/flows/atomic-flow.ts: a swap that starts, is funded, and is refunded.
use Prim.Native.String.{String}
use miradex_client.Prelude.{◌≡◌, refl, ◌<◌, true, false, List, [], ◌∷◌, Option, none, some, map}
use miradex_client.Errors.Codes.{ok, err, plain_error}
use miradex_client.Engine.{AtomicPhase}
use miradex_client.Refund.Der.{compact_to_der, encode_der_integer, trim_leading_zeros, is_low_s}
use miradex_client.Refund.Cancel.{
  discover_and_verify_tx_cancel, check_entry, spends_from_address, script_spends, witness_script_of,
}
use miradex_client.Refund.{
  sign_refund, assemble, with_witness, build_full_refund, build_partial_refund, cancel_value,
  require_above, amnesty_output,
}
use miradex_client.Refund.Samples
use miradex_client.Flow.Context.{
  FlowContext, VerifiedFlowContext, empty_flow_context, narrowed, Verification, merge_flow_context,
  create_flow_context, validate_populated, validate_verified,
}
use miradex_client.Flow.Narrowing.{IsVerified, validate_verified-IsVerified}
use miradex_client.Flow.Invariant.{IsShown}
use miradex_client.Flow.{Flow, Progress, new_flow, set_flow_context, stage_case}
use miradex_client.Flow.Finish.{no_detail, swept}
use miradex_client.Flow.Refunding.{
  RefundTerms, RefundWorld, Unsigned, broadcasts, notifies, saves, relayed, undefined, null, value,
  build_refund, use_amnesty, has_refund_escape_hatch, resolve_protocol_params, resolve_lock_address,
  execute_refund,
}
use miradex_client.Flow.Escape.{null_signature_is_used}
use miradex_client.Flow.Begin.{DriveWorld, refund_action, drive_with}
use miradex_client.Flow.Start.{
  StartWorld, fresh, keys_from, attempt, populated_step, go_on, start_deposit, start_priced, start,
}
use miradex_client.Flow.Calls.{starts, run_calls, user_cancel, user_refund}
use miradex_client.Flow.Traces.{run_calls-IsShown, user_actions_idle}

-- A verification that was not passed.
abbrev verification : Verification
verification = record { verified = false; provider = "atomicswap"; checks = []; timestamp = 1 }

abbrev context : FlowContext
context = record empty_flow_context {
  deposit_addr = some "address";
  dest_address = some "dest";
  from_token = some "BTC";
  to_token = some "XMR";
  qr = some "qr";
  provider = some "atomicswap";
  verification = some verification;
}

abbrev narrow : VerifiedFlowContext
narrow = record { populated = narrowed context; verification = verification }

-- It passes for the phases behind the verification, though the verification was not passed.
validate_verified-IsVerified_example : IsVerified context narrow
validate_verified-IsVerified_example =
    validate_verified-IsVerified context narrow (unfold validate_verified in refl)

abbrev terms : RefundTerms
terms = record {
  a_pub = 4 ∷ [];
  tx_refund_fee_sats = 1000;
  tx_full_refund_encsig = value (1 ∷ []);
  tx_partial_refund_encsig = undefined;
  amnesty_amount_sats = undefined;
  tx_partial_refund_fee_sats = undefined;
}

abbrev refund : RefundWorld
refund = record {
  keys = some Samples.keys;
  refund_address = "bob";
  detail = some (record {
    deposit_address = some "lock_address";
    lock_address = none;
    deposit_tx_hash = some "lock";
    params = some terms;
  });
  has_save = true;
  cached = none;
  provider = ok tt;
  history = ok Samples.history;
  scanned = Samples.fetched;
  fetched = Samples.fetched;
  wasm = ok tt;
  broadcast = λ hex. relayed "refund_txid";
}

abbrev report : String → Option Verification → Progress
report stage v = record {
  stage = stage;
  text = "text";
  swap_id = some "swap";
  swap_number = none;
  verification = v;
  tx_hash = none;
}

abbrev drive : DriveWorld
drive = record {
  provider = ok tt;
  progress =
      report "creating_swap" none
      ∷ report "signing_psbt" (some verification)
      ∷ report "funding" none
      ∷ report "deposited" none
      ∷ [];
  driven = ok "swap";
  detail = some (record {
    status = "cancelling";
    action = refund_action;
    params = none;
    terminal = no_detail;
  });
  refund = refund;
  sweep = record { has_keystore = true; stages = []; outcome = swept "hash" };
  polls = [];
  error_text = "";
  aborted = false;
}

abbrev world : StartWorld
world = record {
  dest_address = "dest";
  refund_address = "bob";
  wasm = ok tt;
  keys = fresh (ok true) false (
      ok (record {
        id = "id";
        btc_address = "address";
        receive_address = "dest";
        refund_address = "bob";
      }));
  aborted_when_saved = false;
  fee_sats = ok 390;
  required_btc = λ fee. "0.01000390";
  expected_xmr = none;
  qr = ok "qr";
  aborted_when_priced = false;
  aborted_when_shown = false;
  deposit = ok tt;
  drive = drive;
}

run_calls-IsShown_example :
    IsShown (run_calls Samples.chain Samples.signer (starts world ∷ []) new_flow)
run_calls-IsShown_example = run_calls-IsShown Samples.chain Samples.signer (starts world ∷ [])

abbrev phases : Flow → List AtomicPhase
phases flow = map (λ e. e.phase) flow.emitted

user_actions_idle_example :
    (user_cancel 3
        (err plain_error)
        (run_calls Samples.chain Samples.signer (starts world ∷ []) new_flow)
      ≡ run_calls Samples.chain Samples.signer (starts world ∷ []) new_flow)
    × (user_refund Samples.chain Samples.signer refund
          (run_calls Samples.chain Samples.signer (starts world ∷ []) new_flow)
        ≡ run_calls Samples.chain Samples.signer (starts world ∷ []) new_flow)
user_actions_idle_example =
    user_actions_idle Samples.chain Samples.signer (starts world ∷ []) 3 (err plain_error) refund

goes_out :
    (execute_refund Samples.chain Samples.signer refund new_flow).acts
    ≡ saves terms ∷ broadcasts "refund" ∷ notifies "refund_txid" ∷ []
unfolding execute_refund sign_refund assemble with_witness build_refund build_full_refund
    cancel_value require_above use_amnesty has_refund_escape_hatch resolve_protocol_params
    resolve_lock_address discover_and_verify_tx_cancel check_entry spends_from_address script_spends
    witness_script_of compact_to_der encode_der_integer trim_leading_zeros is_low_s
goes_out = refl

-- Both signatures could be asked for: the full one is there, the partial one is null.
abbrev null_terms : RefundTerms
null_terms = record terms {
  tx_partial_refund_encsig = null;
  amnesty_amount_sats = value 100000;
  tx_partial_refund_fee_sats = value 1000;
}

abbrev unsigned : Unsigned
unsigned = record { tx_refund_hex = "refund"; cancel_sats = 900000; encsig = [] }

null_signature_is_used_example : (unsigned.encsig ≡ []) × (330 < 100000)
null_signature_is_used_example =
    null_signature_is_used Samples.chain Samples.keys null_terms "cancel" "bob" 100000 1000 unsigned
      refl refl refl
      (unfold build_refund build_partial_refund cancel_value require_above amnesty_output
          use_amnesty in
        refl)

ran :
    phases (run_calls Samples.chain Samples.signer (starts world ∷ []) new_flow)
    ≡ AtomicPhase.refunded ∷ AtomicPhase.refunding ∷ AtomicPhase.verifying_cancel
      ∷ AtomicPhase.confirming ∷ AtomicPhase.funding ∷ AtomicPhase.signing
      ∷ AtomicPhase.creating_swap ∷ AtomicPhase.deposit_detected ∷ AtomicPhase.awaiting_deposit
      ∷ AtomicPhase.keystore_saved ∷ AtomicPhase.keygen ∷ []
unfolding run_calls start start_priced start_deposit go_on attempt populated_step keys_from
    drive_with validate_populated validate_verified merge_flow_context create_flow_context
    stage_case execute_refund sign_refund assemble with_witness build_refund build_full_refund
    cancel_value require_above use_amnesty has_refund_escape_hatch resolve_protocol_params
    resolve_lock_address discover_and_verify_tx_cancel check_entry spends_from_address script_spends
    witness_script_of compact_to_der encode_der_integer trim_leading_zeros is_low_s set_flow_context
ran = refl
