-- ===== src/Flow/Traces.antt =====
-- src/engine/flows/atomic-flow.ts: what every sequence of calls shows.
use Prim.Native.String.{String}
use mathlib.Core.Path.{subst}
use miradex_client.Prelude.{
  ◌≡◌, refl, sym, ap, ◌∙◌, ℕ, All, zero, suc, Bool, true, false, not, Option, none, some, List, [],
  ◌∷◌, if◌then◌else◌, arith,
}
use miradex_client.Errors.Codes.{Result}
use miradex_client.Status.{is_terminal}
use miradex_client.Engine.{AtomicPhase}
use miradex_client.Refund.{Bitcoin, Signer}
use miradex_client.Flow.Context.{warning, FlowContext}
use miradex_client.Flow.{Flow, new_flow, Emission, same_phase, say, show_phase, truthy}
use miradex_client.Flow.Finish.{SweepWorld}
use miradex_client.Flow.Refunding.{RefundWorld}
use miradex_client.Flow.Start.{
  Keystore, check_aborted, Fetch, fetched, fetch_failed, is_transient_error,
  fetch_detail_with_retry, max_transient_retries,
}
use miradex_client.Flow.Resume.{
  ResumeWorld, ResumeDetail, resume_swap, resume_fetched, resume_deposit, resume_waiting,
  resume_keystore, resume_with, resume_from_keystore, utxo_for, verification_for, or_zero,
}
use miradex_client.Flow.Calls.{
  Call, starts, resumes, cancels, refunds, retries_sweep, awaits_action, user_cancel, user_refund,
  user_retry_sweep, sweep_of, swap_id_of, call, run_calls,
}
use miradex_client.Flow.Invariant.{
  IsShown, Fits, Apart, set_flow_context-IsShown, show_phase-IsShown, say-IsShown,
}
use miradex_client.Flow.Ends.{emit_terminal-IsShown, execute_sweep-IsShown}
use miradex_client.Flow.Runs.{
  either_ran, drive_with-IsShown, attempt-IsShown, populated_step-IsShown, go_on-IsShown,
  reset-IsShown, start-IsShown,
}

fetch-IsShown :
    {A : Type 0} (attempts : ℕ) (answers : List (Fetch A)) (flow : Flow)
    → IsShown flow
    → IsShown (fetch_detail_with_retry attempts answers flow).0
unfolding fetch_detail_with_retry
fetch-IsShown zero answers flow shown = shown
fetch-IsShown (suc attempts) [] flow shown = shown
fetch-IsShown (suc attempts) (fetched detail ∷ answers) flow shown = shown
fetch-IsShown (suc attempts) (fetch_failed e aborted ∷ answers) flow shown =
    either_pair (not (is_transient_error e)) _ _ shown
      (either_pair aborted _ _ again (fetch-IsShown attempts answers _ again))
  where
    either_pair :
        {B : Type 0} (t : Bool) (p q : Flow × B)
        → IsShown p.0
        → IsShown q.0
        → IsShown (if t then p else q).0
    either_pair true p q f g = f
    either_pair false p q f g = g

    again :
        IsShown
          (show_phase AtomicPhase.creating_swap none (say warning "Server error, retrying (" flow))
    again =
        show_phase-IsShown AtomicPhase.creating_swap none
          (say warning "Server error, retrying (" flow)
          (say-IsShown warning "Server error, retrying (" flow shown) tt

module _ (b : Bitcoin) (signer : Signer) (w : ResumeWorld) where
  resume_swap-IsShown :
      (swap_id : String) (keystore : Keystore) (detail : ResumeDetail) (flow : Flow)
      → IsShown flow
      → IsShown (resume_swap b signer w swap_id keystore detail flow).flow
  unfolding resume_swap
  resume_swap-IsShown swap_id keystore detail flow shown =
      either_ran (is_terminal detail.status) _ _
        (emit_terminal-IsShown swap_id detail.status detail.terminal _
          (set_flow_context-IsShown _ flow shown))
        (attempt-IsShown b signer w.drive _ (utxo_for detail.status w.utxo) _
          (set_flow_context-IsShown _ flow shown)
          (λ deposit f f_shown.
            attempt-IsShown b signer w.drive f (verification_for w detail) _ f_shown
              (λ verification g g_shown.
                attempt-IsShown b signer w.drive g w.qr _ g_shown (λ qr h h_shown.
                  drive_with-IsShown b signer w.drive w.drive.provider _ (
                    show_phase-IsShown AtomicPhase.creating_swap none _
                      (set_flow_context-IsShown _ h h_shown) tt)))))

  resume_fetched-IsShown :
      (swap_id : String) (keystore : Keystore) (r : Flow × Option (Result ResumeDetail))
      → IsShown r.0
      → IsShown (resume_fetched b signer w swap_id keystore r).flow
  unfolding resume_fetched
  resume_fetched-IsShown swap_id keystore (flow, none) shown = shown
  resume_fetched-IsShown swap_id keystore (flow, some answer) shown =
      attempt-IsShown b signer w.drive flow answer _ shown (resume_swap-IsShown swap_id keystore)

  resume_deposit-IsShown :
      (amount qr : String) (flow : Flow)
      → IsShown flow
      → IsShown (resume_deposit b signer w amount qr flow).flow
  unfolding resume_deposit
  resume_deposit-IsShown amount qr flow shown =
      populated_step-IsShown b signer AtomicPhase.deposit_detected _ _ (λ ctx h. h)
        (set_flow_context-IsShown _ flow shown)
        (drive_with-IsShown b signer w.drive w.drive.provider)

  resume_waiting-IsShown :
      (amount qr : String) (flow : Flow)
      → IsShown flow
      → IsShown (resume_waiting b signer w amount qr flow).flow
  unfolding resume_waiting
  resume_waiting-IsShown amount qr flow shown =
      populated_step-IsShown b signer AtomicPhase.awaiting_deposit _ _ (λ ctx h. h)
        (set_flow_context-IsShown _ flow shown)
        (λ f f_shown.
          attempt-IsShown b signer w.drive f (check_aborted w.aborted_when_shown) _ f_shown
            (λ checked g g_shown.
              attempt-IsShown b signer w.drive g w.watched _ g_shown (λ deposited h h_shown.
                go_on-IsShown b signer w.drive _ (set_flow_context-IsShown _ h h_shown))))

  resume_keystore-IsShown :
      (amount : Option String) (flow : Flow)
      → IsShown flow
      → IsShown (resume_keystore b signer w amount flow).flow
  unfolding resume_keystore
  resume_keystore-IsShown (some amount) flow shown =
      attempt-IsShown b signer w.drive flow w.qr _ shown (resume_deposit-IsShown amount)
  resume_keystore-IsShown none flow shown =
      attempt-IsShown b signer w.drive flow w.listed_amount _ shown (λ listed f f_shown.
        attempt-IsShown b signer w.drive f w.qr _ f_shown (resume_waiting-IsShown (or_zero listed)))

  resume_with-IsShown :
      (keystore : Keystore) (swap_id : Option String) (flow : Flow)
      → IsShown flow
      → IsShown (resume_with b signer w keystore swap_id flow).flow
  unfolding resume_with
  resume_with-IsShown keystore none flow shown =
      attempt-IsShown b signer w.drive flow w.utxo _ shown resume_keystore-IsShown
  resume_with-IsShown keystore (some swap_id) flow shown =
      resume_fetched-IsShown swap_id keystore _
        (fetch-IsShown (suc max_transient_retries) w.answers flow shown)

  resume-IsShown :
      (flow : Flow) → IsShown flow → IsShown (resume_from_keystore b signer w flow).flow
  unfolding resume_from_keystore
  resume-IsShown flow shown =
      attempt-IsShown b signer w.drive _ w.wasm _ (reset-IsShown b signer flow shown)
        (λ done f f_shown.
          attempt-IsShown b signer w.drive f w.keystore _ f_shown (λ keystore g g_shown.
            resume_with-IsShown keystore (truthy w.existing_swap_id) _ (
              show_phase-IsShown AtomicPhase.creating_swap none _
                (set_flow_context-IsShown _ g g_shown) tt)))

-- The phase that `userCancel` and `userRefund` wait for is not among those that are shown.
never_asked :
    (phase : AtomicPhase) (snapshot : Option FlowContext)
    → Fits phase snapshot
    → same_phase phase AtomicPhase.awaiting_user_action ≡ false
never_asked AtomicPhase.idle snapshot fits = refl
never_asked AtomicPhase.keygen snapshot fits = refl
never_asked AtomicPhase.keystore_saved snapshot fits = refl
never_asked AtomicPhase.awaiting_deposit snapshot fits = refl
never_asked AtomicPhase.deposit_detected snapshot fits = refl
never_asked AtomicPhase.creating_swap snapshot fits = refl
never_asked AtomicPhase.verifying snapshot fits = absurd fits
never_asked AtomicPhase.signing snapshot fits = refl
never_asked AtomicPhase.funding snapshot fits = refl
never_asked AtomicPhase.computing_encsig snapshot fits = refl
never_asked AtomicPhase.confirming snapshot fits = refl
never_asked AtomicPhase.swapping snapshot fits = refl
never_asked AtomicPhase.sweeping snapshot fits = refl
never_asked AtomicPhase.awaiting_user_action snapshot fits = absurd fits
never_asked AtomicPhase.verifying_cancel snapshot fits = refl
never_asked AtomicPhase.cancelling snapshot fits = refl
never_asked AtomicPhase.refunding snapshot fits = refl
never_asked AtomicPhase.completed snapshot fits = refl
never_asked AtomicPhase.refunded snapshot fits = refl
never_asked AtomicPhase.cancelled snapshot fits = refl
never_asked AtomicPhase.failed snapshot fits = refl
never_asked AtomicPhase.stalled snapshot fits = refl

never_awaits_among :
    (last : AtomicPhase) (es : List Emission)
    → All (λ e. Fits e.phase e.snapshot) es
    → Apart last es
    → same_phase last AtomicPhase.awaiting_user_action ≡ false
never_awaits_among last [] fit apart = ground arith
never_awaits_among last (e ∷ es) fit apart =
    ap (λ p. same_phase p AtomicPhase.awaiting_user_action) apart.0
    ∙ never_asked e.phase e.snapshot fit.0

never_awaits : (flow : Flow) → IsShown flow → awaits_action flow ≡ false
never_awaits flow shown = never_awaits_among flow.last flow.emitted shown.fit shown.apart

user_cancel_idle :
    (blocks_remaining : ℕ) (answer : Result (Option String)) (flow : Flow)
    → IsShown flow
    → user_cancel blocks_remaining answer flow ≡ flow
unfolding user_cancel
user_cancel_idle blocks_remaining answer flow shown = rw (never_awaits flow shown) refl

user_refund_idle :
    (b : Bitcoin) (signer : Signer) (w : RefundWorld) (flow : Flow)
    → IsShown flow
    → user_refund b signer w flow ≡ flow
unfolding user_refund
user_refund_idle b signer w flow shown = rw (never_awaits flow shown) refl

sweep_of-IsShown :
    (swap_id : Option String) (w : SweepWorld) (flow : Flow)
    → IsShown flow
    → IsShown (sweep_of swap_id w flow)
sweep_of-IsShown none w flow shown = shown
sweep_of-IsShown (some swap_id) w flow shown = execute_sweep-IsShown swap_id w flow shown

call-IsShown :
    (b : Bitcoin) (signer : Signer) (c : Call) (flow : Flow)
    → IsShown flow
    → IsShown (call b signer c flow)
unfolding call user_retry_sweep
call-IsShown b signer (starts w) flow shown = start-IsShown b signer w flow shown
call-IsShown b signer (resumes w) flow shown = resume-IsShown b signer w flow shown
call-IsShown b signer (cancels blocks answer) flow shown =
    subst IsShown (sym (user_cancel_idle blocks answer flow shown)) shown
call-IsShown b signer (refunds w) flow shown =
    subst IsShown (sym (user_refund_idle b signer w flow shown)) shown
call-IsShown b signer (retries_sweep w) flow shown = sweep_of-IsShown (swap_id_of flow) w flow shown

calls_from-IsShown :
    (b : Bitcoin) (signer : Signer) (cs : List Call) (flow : Flow)
    → IsShown flow
    → IsShown (run_calls b signer cs flow)
unfolding run_calls
calls_from-IsShown b signer [] flow shown = shown
calls_from-IsShown b signer (c ∷ cs) flow shown =
    calls_from-IsShown b signer cs _ (call-IsShown b signer c flow shown)

new_flow-IsShown : IsShown new_flow
new_flow-IsShown = record { fit = tt; apart = refl }

-- Whatever is called on a new flow, and whatever the world answers: each phase that is emitted has
-- the snapshot that it asks for, a populated one behind the deposit's address and a verified one
-- behind the verification, and no phase is emitted twice in a row (see `IsShown`).
pub run_calls-IsShown :
    (b : Bitcoin) (signer : Signer) (cs : List Call) → IsShown (run_calls b signer cs new_flow)
run_calls-IsShown b signer cs = calls_from-IsShown b signer cs new_flow new_flow-IsShown

-- Whatever was called before, `userCancel` and `userRefund` leave the flow as it is: no call shows
-- the phase that they wait for.
pub user_actions_idle :
    (b : Bitcoin) (signer : Signer) (cs : List Call) (blocks_remaining : ℕ)
    (answer : Result (Option String)) (w : RefundWorld)
    → (user_cancel blocks_remaining answer (run_calls b signer cs new_flow)
        ≡ run_calls b signer cs new_flow)
      × (user_refund b signer w (run_calls b signer cs new_flow) ≡ run_calls b signer cs new_flow)
user_actions_idle b signer cs blocks answer w = (
  user_cancel_idle blocks answer _ (run_calls-IsShown b signer cs),
  user_refund_idle b signer w _ (run_calls-IsShown b signer cs),
)
