-- ===== src/Flow/Calls.antt =====
-- src/engine/flows/atomic-flow.ts: the calls that a flow's owner makes, one behind the other:
-- `start`, `resumeFromKeystore`, `userCancel`, `userRefund` and `userRetrySweep`. A call that comes
-- while another one waits is not modelled.
use Prim.Native.String.{String}
use miradex_client.Prelude.{ℕ, Bool, Option, none, some, List, [], ◌∷◌, ltb, if◌then◌else◌}
use miradex_client.Errors.Codes.{Result, ok, err}
use miradex_client.Engine.{AtomicPhase}
use miradex_client.Refund.{Bitcoin, Signer}
use miradex_client.Flow.Context.{message}
use miradex_client.Flow.{Flow, same_phase, set_flow_context, transition, show_phase, say, truthy}
use miradex_client.Flow.Finish.{SweepWorld, execute_sweep}
use miradex_client.Flow.Refunding.{RefundWorld, execute_refund}
use miradex_client.Flow.Start.{StartWorld, start}
use miradex_client.Flow.Resume.{ResumeWorld, resume_from_keystore}

-- `getCurrentAwaitingActionState() !== null`
abbrev pub awaits_action : Flow → Bool
awaits_action flow = same_phase flow.last AtomicPhase.awaiting_user_action

-- The state that is shown again, with an error.
abbrev pub show_again : Flow → Flow
show_again flow = show_phase AtomicPhase.awaiting_user_action none flow

abbrev pub cancel_answered : Result (Option String) → Flow → Flow
cancel_answered (ok tx_cancel_txid) flow = show_phase AtomicPhase.cancelled tx_cancel_txid flow
cancel_answered (err failure) flow = show_again flow

unfoldable pub user_cancel :
    (blocks_remaining : ℕ) → (answer : Result (Option String)) → Flow → Flow
unfolding set_flow_context transition
user_cancel blocks_remaining answer flow =
    let cancelling =
      show_phase AtomicPhase.cancelling none (say message "Broadcasting TxCancel..." flow) in
    if awaits_action flow
    then (if ltb 0 blocks_remaining then show_again flow else cancel_answered answer cancelling)
    else flow

unfoldable pub user_refund : Bitcoin → Signer → RefundWorld → Flow → Flow
unfolding execute_refund
user_refund b signer w flow =
    let refunded = execute_refund b signer w flow in
    if awaits_action flow then refunded.flow else flow

abbrev pub swap_id_of : Flow → Option String
swap_id_of flow = elim flow.ctx [ none ↦ none | some ctx ↦ truthy ctx.swap_id ]

abbrev pub sweep_of : Option String → SweepWorld → Flow → Flow
sweep_of none w flow = flow
sweep_of (some swap_id) w flow = execute_sweep swap_id w flow

unfoldable pub user_retry_sweep : SweepWorld → Flow → Flow
unfolding execute_sweep
user_retry_sweep w flow = sweep_of (swap_id_of flow) w flow

pub data Call : Type 0 where
  starts : StartWorld → Call
  resumes : ResumeWorld → Call
  cancels : (blocks_remaining : ℕ) → (answer : Result (Option String)) → Call
  refunds : RefundWorld → Call
  retries_sweep : SweepWorld → Call

unfoldable pub call : Bitcoin → Signer → Call → Flow → Flow
call b signer (starts w) flow = (start b signer w flow).flow
call b signer (resumes w) flow = (resume_from_keystore b signer w flow).flow
call b signer (cancels blocks_remaining answer) flow = user_cancel blocks_remaining answer flow
call b signer (refunds w) flow = user_refund b signer w flow
call b signer (retries_sweep w) flow = user_retry_sweep w flow

unfoldable pub run_calls : Bitcoin → Signer → List Call → Flow → Flow
unfolding call
run_calls b signer [] flow = flow
run_calls b signer (c ∷ cs) flow = run_calls b signer cs (call b signer c flow)
