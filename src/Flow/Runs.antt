-- ===== src/Flow/Runs.antt =====
-- src/engine/flows/atomic-flow.ts: whole runs of a flow keep to what is shown.
use Prim.Native.String.{String}
use miradex_client.Prelude.{
  Bool, true, false, ◌||◌, Option, none, some, List, [], ◌∷◌, str_eq, if◌then◌else◌, Bool-cases,
  inl, inr,
}
use miradex_client.Errors.Codes.{Result, ok, err, Failure}
use miradex_client.Status.{is_terminal}
use miradex_client.Engine.{AtomicPhase}
use miradex_client.Refund.{Bitcoin, Signer}
use miradex_client.Flow.Context.{message}
use miradex_client.Flow.{Flow, Progress, say, if_populated, is_populated}
use miradex_client.Flow.Finish.{no_detail}
use miradex_client.Flow.Refunding.{Act}
use miradex_client.Flow.Begin.{
  Action, no_action, refund_action, sweep_action, other_action, PolledDetail, Poll, Polled,
  DriveWorld, Ran, poll_action, poll_detail, poll_once, poll_done, poll_until_terminal, map_all,
  thrown_ran, settle, follow_action, follow_driver, driven_ran, drive_with,
}
use miradex_client.Flow.Start.{
  StartWorld, Keystore, attempt, check_aborted, populated_step, go_on, start_deposit, start_priced,
  start, keys_from,
}
use miradex_client.Flow.Invariant.{
  IsShown, IsAskedPopulated, set_flow_context-IsShown, show_phase-IsShown, say-IsShown,
  if_populated-IsShown, map_core_progress-IsShown,
}
use miradex_client.Flow.Ends.{
  emit_terminal-IsShown, handle_error-IsShown, execute_sweep-IsShown, execute_refund-IsShown,
}

map_all-IsShown : (ps : List Progress) (flow : Flow) → IsShown flow → IsShown (map_all ps flow)
unfolding map_all
map_all-IsShown [] flow shown = shown
map_all-IsShown (p ∷ ps) flow shown = map_all-IsShown ps _ (map_core_progress-IsShown p flow shown)

either_polled :
    (t : Bool) (p q : Polled) → IsShown p.flow → IsShown q.flow → IsShown (if t then p else q).flow
either_polled true p q f g = f
either_polled false p q f g = g

pub either_ran :
    (t : Bool) (p q : Ran) → IsShown p.flow → IsShown q.flow → IsShown (if t then p else q).flow
either_ran true p q f g = f
either_ran false p q f g = g

module _ (b : Bitcoin) (signer : Signer) where
  poll_action-IsShown :
      (swap_id : String) (action : Action) (w : Poll) (flow : Flow)
      → IsShown flow
      → IsShown (poll_action b signer swap_id action w flow).flow
  unfolding poll_action
  poll_action-IsShown swap_id refund_action w flow shown =
      execute_refund-IsShown b signer w.refund flow shown
  poll_action-IsShown swap_id sweep_action w flow shown =
      execute_sweep-IsShown swap_id w.sweep flow shown
  poll_action-IsShown swap_id no_action w flow shown = shown
  poll_action-IsShown swap_id other_action w flow shown = shown

  poll_detail-IsShown :
      (swap_id : String) (detail : Option PolledDetail) (w : Poll) (flow : Flow)
      → IsShown flow
      → IsShown (poll_detail b signer swap_id detail w flow).flow
  unfolding poll_detail
  poll_detail-IsShown swap_id none w flow shown = shown
  poll_detail-IsShown swap_id (some detail) w flow shown =
      elim (Bool-cases (is_terminal detail.status)) [
        | inl h ↦ rw h (emit_terminal-IsShown swap_id detail.status detail.terminal flow shown)
        | inr h ↦ rw h (poll_action-IsShown swap_id detail.action w flow shown)
      ]

  poll_done-IsShown :
      (swap_id : String) (polled : Polled) (aborted_behind : Bool) (rest : Flow → Polled)
      → IsShown polled.flow
      → IsShown (rest polled.flow).flow
      → IsShown (poll_done b signer swap_id polled aborted_behind rest).flow
  poll_done-IsShown swap_id polled aborted_behind rest shown later =
      either_polled (polled.is_over || aborted_behind) _ _ shown later

  poll_until_terminal-IsShown :
      (swap_id : String) (ws : List Poll) (flow : Flow)
      → IsShown flow
      → IsShown (poll_until_terminal b signer swap_id ws flow).flow
  unfolding poll_until_terminal
  poll_until_terminal-IsShown swap_id [] flow shown = shown
  poll_until_terminal-IsShown swap_id (w ∷ ws) flow shown =
      either_polled w.aborted_before _ _ shown (
        poll_done-IsShown swap_id (poll_once b signer swap_id w flow) w.aborted_behind
          (poll_until_terminal b signer swap_id ws) once
          (poll_until_terminal-IsShown swap_id ws _ once))
    where
      once : IsShown (poll_once b signer swap_id w flow).flow
      once = poll_detail-IsShown swap_id w.detail w flow shown

  thrown-IsShown :
      (d : DriveWorld) (thrown : Option Failure) (flow : Flow) (acts : List Act)
      → IsShown flow
      → IsShown (thrown_ran b signer d thrown flow acts).flow
  thrown-IsShown d none flow acts shown = shown
  thrown-IsShown d (some failure) flow acts shown =
      handle_error-IsShown failure d.error_text d.aborted flow shown

  settle-IsShown :
      (d : DriveWorld) (swap_id status : String) (flow : Flow)
      → IsShown flow
      → IsShown (settle b signer d swap_id status flow).flow
  unfolding settle
  settle-IsShown d swap_id status flow shown =
      either_ran (is_terminal status) _ _
        (emit_terminal-IsShown swap_id status no_detail flow shown)
        (poll_until_terminal-IsShown swap_id d.polls (say message "Waiting for server..." flow)
          (say-IsShown message "Waiting for server..." flow shown))

  follow_action-IsShown :
      (d : DriveWorld) (swap_id status : String) (action : Action) (flow : Flow)
      → IsShown flow
      → IsShown (follow_action b signer d swap_id status action flow).flow
  unfolding follow_action
  follow_action-IsShown d swap_id status refund_action flow shown =
      thrown-IsShown d _ _ _ (execute_refund-IsShown b signer d.refund flow shown)
  follow_action-IsShown d swap_id status sweep_action flow shown =
      execute_sweep-IsShown swap_id d.sweep flow shown
  follow_action-IsShown d swap_id status no_action flow shown =
      either_ran (str_eq status "sending") _ _ (execute_sweep-IsShown swap_id d.sweep flow shown)
        (settle-IsShown d swap_id status flow shown)
  follow_action-IsShown d swap_id status other_action flow shown =
      either_ran (str_eq status "sending") _ _ (execute_sweep-IsShown swap_id d.sweep flow shown)
        (settle-IsShown d swap_id status flow shown)

  follow_driver-IsShown :
      (d : DriveWorld) (swap_id : String) (detail : Option PolledDetail) (flow : Flow)
      → IsShown flow
      → IsShown (follow_driver b signer d swap_id detail flow).flow
  unfolding follow_driver
  follow_driver-IsShown d swap_id none flow shown =
      follow_action-IsShown d swap_id "completed" no_action flow shown
  follow_driver-IsShown d swap_id (some detail) flow shown =
      follow_action-IsShown d swap_id detail.status detail.action _
        (set_flow_context-IsShown _ flow shown)

  driven_ran-IsShown :
      (d : DriveWorld) (driven : Result String) (flow : Flow)
      → IsShown flow
      → IsShown (driven_ran b signer d driven flow).flow
  unfolding driven_ran
  driven_ran-IsShown d (err failure) flow shown =
      handle_error-IsShown failure d.error_text d.aborted flow shown
  driven_ran-IsShown d (ok swap_id) flow shown =
      either_ran flow.has_reached_terminal _ _ shown
        (follow_driver-IsShown d swap_id d.detail flow shown)

  pub drive_with-IsShown :
      (d : DriveWorld) (provider : Result (Unit {0})) (flow : Flow)
      → IsShown flow
      → IsShown (drive_with b signer d provider flow).flow
  unfolding drive_with
  drive_with-IsShown d (err failure) flow shown =
      handle_error-IsShown failure d.error_text d.aborted flow shown
  drive_with-IsShown d (ok done) flow shown =
      driven_ran-IsShown d d.driven _ (map_all-IsShown d.progress flow shown)

  pub attempt-IsShown :
      {A : Type 0} (d : DriveWorld) (flow : Flow) (r : Result A) (next_step : A → Flow → Ran)
      → IsShown flow
      → ((a : A) (f : Flow) → IsShown f → IsShown (next_step a f).flow)
      → IsShown (attempt b signer d flow r next_step).flow
  unfolding attempt
  attempt-IsShown d flow (err failure) next_step shown h =
      handle_error-IsShown failure d.error_text d.aborted flow shown
  attempt-IsShown d flow (ok a) next_step shown h = h a flow shown

  pub populated_step-IsShown :
      (phase : AtomicPhase) (flow : Flow) (next_step : Flow → Ran)
      → IsAskedPopulated phase
      → IsShown flow
      → ((f : Flow) → IsShown f → IsShown (next_step f).flow)
      → IsShown (populated_step b signer phase flow next_step).flow
  unfolding populated_step
  populated_step-IsShown phase flow next_step asked shown h =
      either_ran (is_populated flow.ctx) _ _ (h _ begun) begun
    where
      begun : IsShown (if_populated phase flow.ctx flow)
      begun = if_populated-IsShown phase flow.ctx flow asked shown

  pub go_on-IsShown :
      (d : DriveWorld) (flow : Flow) → IsShown flow → IsShown (go_on b signer d flow).flow
  unfolding go_on
  go_on-IsShown d flow shown =
      populated_step-IsShown AtomicPhase.deposit_detected _ _ (λ ctx h. h)
        (say-IsShown message "Deposit detected. Creating swap..." flow shown)
        (drive_with-IsShown d d.provider)

  start_deposit-IsShown :
      (w : StartWorld) (flow : Flow) → IsShown flow → IsShown (start_deposit b signer w flow).flow
  unfolding start_deposit
  start_deposit-IsShown w flow shown =
      populated_step-IsShown AtomicPhase.awaiting_deposit flow _ (λ ctx h. h) shown
        (λ f f_shown.
          attempt-IsShown w.drive f (check_aborted w.aborted_when_shown) _ f_shown
            (λ checked g g_shown.
              attempt-IsShown w.drive g w.deposit _ g_shown (λ deposit. go_on-IsShown w.drive)))

  start_priced-IsShown :
      (w : StartWorld) (keystore : Keystore) (flow : Flow)
      → IsShown flow
      → IsShown (start_priced b signer w keystore flow).flow
  unfolding start_priced
  start_priced-IsShown w keystore flow shown =
      attempt-IsShown w.drive flow (check_aborted w.aborted_when_saved) _ shown
        (λ checked f f_shown. attempt-IsShown w.drive f w.fee_sats _ f_shown (λ fee g g_shown.
          attempt-IsShown w.drive g w.qr _ g_shown (λ qr h h_shown.
            attempt-IsShown w.drive _ (check_aborted w.aborted_when_priced) _
              (set_flow_context-IsShown _ h h_shown) (λ done. start_deposit-IsShown w))))

  pub reset-IsShown :
      (flow : Flow) → IsShown flow → IsShown (record flow { has_reached_terminal = false })
  reset-IsShown flow shown = record { fit = shown.fit; apart = shown.apart }

  pub start-IsShown :
      (w : StartWorld) (flow : Flow) → IsShown flow → IsShown (start b signer w flow).flow
  unfolding start
  start-IsShown w flow shown =
      attempt-IsShown w.drive _ w.wasm _
        (show_phase-IsShown AtomicPhase.keygen none _
          (set_flow_context-IsShown _ _ (reset-IsShown flow shown)) tt)
        (λ done f f_shown.
          attempt-IsShown w.drive _ (keys_from w.keys) _
            (show_phase-IsShown AtomicPhase.keygen none _ (say-IsShown message _ f f_shown) tt)
            (λ keystore g g_shown. start_priced-IsShown w keystore _ (
              show_phase-IsShown AtomicPhase.keystore_saved none _
                (set_flow_context-IsShown _ g g_shown) tt)))
