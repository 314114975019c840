-- ===== src/Flow/Finish.antt =====
-- src/engine/flows/atomic-flow.ts: how a swap ends, `emitTerminal`, `handleError` and `executeSweep`.
-- Of a message that is put together its fixed beginning is kept.
use Prim.Native.String.{String}
use miradex_client.Prelude.{
  Bool, not, ◌||◌, Option, none, some, List, [], ◌∷◌, str_eq, if◌then◌else◌,
}
use miradex_client.Errors.Codes.{Failure}
use miradex_client.Errors.Text.{includes}
use miradex_client.Engine.{
  AtomicPhase, Route, route_cancelled, route_stalled, route_failed, route_error,
}
use miradex_client.Flow.Context.{message, error, no_change}
use miradex_client.Flow.{
  Flow, set_flow_context, transition, emit_error, show_phase, say, if_verified, is_verified,
  say_and_verify,
}

-- What `emitTerminal` reads of a swap's detail.
pub record TerminalDetail : Type 0 where
  pub swap_number : Option String
  pub output_tx_hash : Option String
  pub refund_tx_hash : Option String

abbrev pub no_detail : TerminalDetail
no_detail = record { swap_number = none; output_tx_hash = none; refund_tx_hash = none }

unfoldable pub emit_terminal : (swap_id status : String) → TerminalDetail → Flow → Flow
unfolding set_flow_context transition
emit_terminal swap_id status detail flow =
    let noted =
      set_flow_context
        (record no_change { swap_id = some (some swap_id); swap_number = some detail.swap_number })
        flow in
    if str_eq status "completed"
    then show_phase AtomicPhase.completed detail.output_tx_hash (say message "Swap completed" noted)
    else if str_eq status "refunded"
    then show_phase AtomicPhase.refunded detail.refund_tx_hash noted
    else show_phase AtomicPhase.failed none (say error "Swap ended: " noted)

abbrev pub show_route : Route → (error_text : String) → Flow → Flow
show_route route_cancelled error_text flow = show_phase AtomicPhase.cancelled none flow
show_route route_stalled error_text flow =
    show_phase AtomicPhase.stalled none (say error error_text flow)
show_route route_failed error_text flow =
    show_phase AtomicPhase.failed none (say error error_text flow)

-- An exception, with its message, and whether the signal is aborted by then.
unfoldable pub handle_error : Failure → (error_text : String) → (aborted : Bool) → Flow → Flow
unfolding set_flow_context transition
handle_error failure error_text aborted flow =
    show_route (route_error failure aborted flow.last_seen_status) error_text flow

-- What `sweepMonero` comes to; after a failure, the detail that is asked for then.
pub data SweepOutcome : Type 0 where
  swept : (tx_hash : String) → SweepOutcome
  sweep_failed : (error_text : String) → (recheck : Option TerminalDetail) → SweepOutcome

pub record SweepWorld : Type 0 where
  pub has_keystore : Bool
  pub stages : List String
  pub outcome : SweepOutcome

-- The progress of the sweep, step by step.
unfoldable pub sweep_steps : List String → Flow → Flow
unfolding set_flow_context if_verified
sweep_steps [] flow = flow
sweep_steps (stage ∷ stages) flow =
    sweep_steps stages (say_and_verify message stage AtomicPhase.sweeping flow)

abbrev pub says_completed : String → Bool
says_completed error_text = includes "'completed'" error_text || includes "\"completed\"" error_text

abbrev pub sweep_has_failed : Flow → Flow
sweep_has_failed flow = show_phase AtomicPhase.failed none (say error "Sweep failed: " flow)

abbrev pub recheck_completed : (swap_id : String) → Option TerminalDetail → Flow → Flow
recheck_completed swap_id none flow = sweep_has_failed flow
recheck_completed swap_id (some detail) flow = emit_terminal swap_id "completed" detail flow

unfoldable pub sweep_ended : (swap_id : String) → SweepOutcome → Flow → Flow
unfolding set_flow_context transition emit_terminal
sweep_ended swap_id (swept tx_hash) flow =
    show_phase AtomicPhase.completed (some tx_hash) (say message "Sweep complete" flow)
sweep_ended swap_id (sweep_failed error_text recheck) flow =
    if says_completed error_text
    then recheck_completed swap_id recheck flow
    else sweep_has_failed flow

unfoldable pub execute_sweep : (swap_id : String) → SweepWorld → Flow → Flow
unfolding set_flow_context if_verified emit_error sweep_steps sweep_ended
execute_sweep swap_id w flow =
    let said = say message "Starting XMR sweep..." flow in
    let shown = if_verified AtomicPhase.sweeping said.ctx said in
    if not w.has_keystore
    then emit_error flow
    else if not (is_verified said.ctx)
    then shown
    else sweep_ended swap_id w.outcome (sweep_steps w.stages shown)
