-- ===== src/Flow/Ends.antt =====
-- src/engine/flows/atomic-flow.ts: the ends of a swap and the refund keep to what is shown.
use Prim.Native.String.{String}
use miradex_client.Prelude.{
  Bool, true, false, not, Option, none, some, List, [], ◌∷◌, str_eq, if◌then◌else◌, Bool-cases, inl,
  inr,
}
use miradex_client.Errors.Codes.{Result, ok, err, Failure}
use miradex_client.Engine.{
  AtomicPhase, Route, route_cancelled, route_stalled, route_failed, route_error,
}
use miradex_client.Refund.{Bitcoin, Signer, RefundKeys, AssembledRefund}
use miradex_client.Refund.Cancel.{TxCancelVerification, refused, verified}
use miradex_client.Flow.Context.{message, error, no_change}
use miradex_client.Flow.{Flow, set_flow_context, say, if_verified, is_verified}
use miradex_client.Flow.Finish.{
  TerminalDetail, emit_terminal, show_route, handle_error, SweepOutcome, swept, sweep_failed,
  SweepWorld, sweep_steps, recheck_completed, says_completed, sweep_ended, execute_sweep,
}
use miradex_client.Flow.Refunding.{
  RefundTerms, RefundDetail, Unsigned, Relay, relayed, not_relayed, is_known, Act, Refunded,
  RefundWorld, stop, notified, has_refund_escape_hatch, resolve_lock_address, find_tx_cancel,
  text_or_empty, resolve_protocol_params, caches, refund_relayed, refund_signed, refund_built,
  refund_checked, refund_agreed, execute_refund_with, execute_refund,
}
use miradex_client.Flow.Invariant.{
  IsShown, set_flow_context-IsShown, show_phase-IsShown, emit_error-IsShown, say-IsShown,
  if_verified-IsShown, say_and_verify-IsShown, as_it_is,
}

-- A choice keeps to it if both of its sides do.
pub either-IsShown : (t : Bool) (f g : Flow) → IsShown f → IsShown g → IsShown (if t then f else g)
either-IsShown true f g p q = p
either-IsShown false f g p q = q

-- A message, and a phase that asks for nothing.
say_and_fail-IsShown :
    (text : String) (flow : Flow) → IsShown flow → IsShown (stop text flow []).flow
say_and_fail-IsShown text flow shown =
    show_phase-IsShown AtomicPhase.failed none (say error text flow)
      (say-IsShown error text flow shown) tt

pub emit_terminal-IsShown :
    (swap_id status : String) (detail : TerminalDetail) (flow : Flow)
    → IsShown flow
    → IsShown (emit_terminal swap_id status detail flow)
unfolding emit_terminal
emit_terminal-IsShown swap_id status detail flow shown =
    either-IsShown (str_eq status "completed") _ _
      (show_phase-IsShown AtomicPhase.completed detail.output_tx_hash
        (say message "Swap completed" noted)
        (say-IsShown message "Swap completed" noted noted_shown) tt)
      (either-IsShown (str_eq status "refunded") _ _
        (show_phase-IsShown AtomicPhase.refunded detail.refund_tx_hash noted noted_shown tt)
        (say_and_fail-IsShown "Swap ended: " noted noted_shown))
  where
    noted : Flow
    noted =
        set_flow_context
          (record no_change {
            swap_id = some (some swap_id);
            swap_number = some detail.swap_number;
          })
          flow

    noted_shown : IsShown noted
    noted_shown = set_flow_context-IsShown _ flow shown

show_route-IsShown :
    (route : Route) (text : String) (flow : Flow)
    → IsShown flow
    → IsShown (show_route route text flow)
show_route-IsShown route_cancelled text flow shown =
    show_phase-IsShown AtomicPhase.cancelled none flow shown tt
show_route-IsShown route_stalled text flow shown =
    show_phase-IsShown AtomicPhase.stalled none (say error text flow)
      (say-IsShown error text flow shown) tt
show_route-IsShown route_failed text flow shown = say_and_fail-IsShown text flow shown

pub handle_error-IsShown :
    (failure : Failure) (text : String) (aborted : Bool) (flow : Flow)
    → IsShown flow
    → IsShown (handle_error failure text aborted flow)
unfolding handle_error
handle_error-IsShown failure text aborted flow shown =
    show_route-IsShown (route_error failure aborted flow.last_seen_status) text flow shown

sweep_steps-IsShown :
    (stages : List String) (flow : Flow) → IsShown flow → IsShown (sweep_steps stages flow)
unfolding sweep_steps as_it_is
sweep_steps-IsShown [] flow shown = shown
sweep_steps-IsShown (stage ∷ stages) flow shown =
    sweep_steps-IsShown stages _
      (say_and_verify-IsShown message stage AtomicPhase.sweeping flow as_it_is shown)

recheck-IsShown :
    (swap_id : String) (detail : Option TerminalDetail) (flow : Flow)
    → IsShown flow
    → IsShown (recheck_completed swap_id detail flow)
recheck-IsShown swap_id none flow shown = say_and_fail-IsShown "Sweep failed: " flow shown
recheck-IsShown swap_id (some detail) flow shown =
    emit_terminal-IsShown swap_id "completed" detail flow shown

sweep_ended-IsShown :
    (swap_id : String) (outcome : SweepOutcome) (flow : Flow)
    → IsShown flow
    → IsShown (sweep_ended swap_id outcome flow)
unfolding sweep_ended
sweep_ended-IsShown swap_id (swept tx_hash) flow shown =
    show_phase-IsShown AtomicPhase.completed (some tx_hash) (say message "Sweep complete" flow)
      (say-IsShown message "Sweep complete" flow shown) tt
sweep_ended-IsShown swap_id (sweep_failed text recheck) flow shown =
    either-IsShown (says_completed text) _ _ (recheck-IsShown swap_id recheck flow shown)
      (say_and_fail-IsShown "Sweep failed: " flow shown)

pub execute_sweep-IsShown :
    (swap_id : String) (w : SweepWorld) (flow : Flow)
    → IsShown flow
    → IsShown (execute_sweep swap_id w flow)
unfolding execute_sweep as_it_is
execute_sweep-IsShown swap_id w flow shown =
    either-IsShown (not w.has_keystore) _ _ (emit_error-IsShown flow shown) (
      either-IsShown (not (is_verified said.ctx)) _ _ begun
        (sweep_ended-IsShown swap_id w.outcome _ (sweep_steps-IsShown w.stages _ begun)))
  where
    said : Flow
    said = say message "Starting XMR sweep..." flow

    begun : IsShown (if_verified AtomicPhase.sweeping said.ctx said)
    begun =
        if_verified-IsShown AtomicPhase.sweeping said.ctx said as_it_is
          (say-IsShown message "Starting XMR sweep..." flow shown)

-- The same choice of two refunds.
either_refunded :
    (t : Bool) (r s : Refunded)
    → IsShown r.flow
    → IsShown s.flow
    → IsShown (if t then r else s).flow
either_refunded true r s p q = p
either_refunded false r s p q = q

notified-IsShown :
    (txid : String) (flow : Flow) (acts : List Act)
    → IsShown flow
    → IsShown (notified txid flow acts).flow
notified-IsShown txid flow acts shown =
    show_phase-IsShown AtomicPhase.refunded (some txid) flow shown tt

refund_relayed-IsShown :
    (relay : Relay) (assembled : AssembledRefund) (flow : Flow) (acts : List Act)
    → IsShown flow
    → IsShown (refund_relayed relay assembled flow acts).flow
unfolding refund_relayed
refund_relayed-IsShown (relayed txid) assembled flow acts shown =
    notified-IsShown txid flow acts shown
refund_relayed-IsShown (not_relayed text) assembled flow acts shown =
    either_refunded (is_known text) _ _ (notified-IsShown assembled.txid flow acts shown)
      (say_and_fail-IsShown "Refund broadcast failed: " flow shown)

module _ (b : Bitcoin) (signer : Signer) (w : RefundWorld) where
  refund_signed-IsShown :
      (signed : Result AssembledRefund) (flow : Flow) (acts : List Act)
      → IsShown flow
      → IsShown (refund_signed b signer w signed flow acts).flow
  unfolding refund_signed
  refund_signed-IsShown (err failure) flow acts shown =
      say_and_fail-IsShown "Refund failed: " flow shown
  refund_signed-IsShown (ok assembled) flow acts shown =
      refund_relayed-IsShown (w.broadcast assembled.hex) assembled flow _ shown

  refund_built-IsShown :
      (keys : RefundKeys) (built : Result Unsigned) (flow : Flow) (acts : List Act)
      → IsShown flow
      → IsShown (refund_built b signer w keys built flow acts).flow
  unfolding refund_built
  refund_built-IsShown keys (err failure) flow acts shown = shown
  refund_built-IsShown keys (ok unsigned) flow acts shown = refund_signed-IsShown _ flow acts shown

  refund_checked-IsShown :
      (keys : RefundKeys) (terms : RefundTerms) (checked : Result TxCancelVerification)
      (flow : Flow) (acts : List Act)
      → IsShown flow
      → IsShown (refund_checked b signer w keys terms checked flow acts).flow
  unfolding refund_checked
  refund_checked-IsShown keys terms (err failure) flow acts shown = shown
  refund_checked-IsShown keys terms (ok (refused reason)) flow acts shown =
      say_and_fail-IsShown "REFUSED: " flow shown
  refund_checked-IsShown keys terms (ok (verified hex txid height)) flow acts shown =
      either_refunded (str_eq hex "") _ _ (say_and_fail-IsShown "REFUSED: " flow shown) (
        refund_built-IsShown keys _ _ acts (
          show_phase-IsShown AtomicPhase.refunding none
            (say message "TxCancel confirmed. Signing refund locally..." flow)
            (say-IsShown message "TxCancel confirmed. Signing refund locally..." flow shown) tt))

  refund_agreed-IsShown :
      (keys : RefundKeys) (lock_address deposit_txid : String) (terms : Option RefundTerms)
      (flow : Flow) (acts : List Act)
      → IsShown flow
      → IsShown (refund_agreed b signer w keys lock_address deposit_txid terms flow acts).flow
  unfolding refund_agreed
  refund_agreed-IsShown keys lock deposit none flow acts shown =
      say_and_fail-IsShown "REFUSED: " flow shown
  refund_agreed-IsShown keys lock deposit (some terms) flow acts shown =
      elim (Bool-cases (has_refund_escape_hatch terms)) [
        | inl h ↦ rw h (
            refund_checked-IsShown (record keys { a_pub = terms.a_pub }) terms
              (find_tx_cancel b signer w lock deposit) _ acts
              (show_phase-IsShown AtomicPhase.verifying_cancel none
                (say message "Verifying TxCancel on-chain..." flow)
                (say-IsShown message "Verifying TxCancel on-chain..." flow shown) tt))
        | inr h ↦ rw h (say_and_fail-IsShown "REFUSED: " flow shown)
      ]

  refund_with-IsShown :
      (keys : Option RefundKeys) (detail : Option RefundDetail) (flow : Flow)
      → IsShown flow
      → IsShown (execute_refund_with b signer w keys detail flow).flow
  unfolding execute_refund_with
  refund_with-IsShown none detail flow shown = emit_error-IsShown flow shown
  refund_with-IsShown (some keys) none flow shown = emit_error-IsShown flow shown
  refund_with-IsShown (some keys) (some detail) flow shown =
      elim (Bool-cases (str_eq (resolve_lock_address detail) "")) [
        | inl h ↦ rw h (
            say_and_fail-IsShown "Cannot determine lock address — unable to verify TxCancel" flow
              shown)
        | inr h ↦ rw h (
            refund_agreed-IsShown keys (resolve_lock_address detail)
              (text_or_empty detail.deposit_tx_hash)
              (resolve_protocol_params detail.params w.cached) flow
              (caches w.has_save detail.params) shown)
      ]

  pub execute_refund-IsShown :
      (flow : Flow) → IsShown flow → IsShown (execute_refund b signer w flow).flow
  unfolding execute_refund
  execute_refund-IsShown flow shown = refund_with-IsShown w.keys w.detail flow shown
