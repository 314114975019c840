-- ===== src/Flow/Invariant.antt =====
-- src/engine/flows/atomic-flow.ts: what holds of the emissions of a flow, and that each step of the
-- flow keeps to it.
use Prim.Native.String.{String}
use mathlib.Core.Path.{subst}
use miradex_client.Prelude.{
  ◌≡◌, refl, sym, true, false, Option, none, some, List, [], ◌∷◌, All, Bool-cases, inl, inr,
}
use miradex_client.Engine.{AtomicPhase}
use miradex_client.Flow.Context.{
  FlowContext, FlowContextResult, valid, invalid, PopulatedFlowContext, VerifiedFlowContext, Patch,
  ExtraType, message, warning, error, validate_populated, validate_verified,
}
use miradex_client.Flow.Narrowing.{validate_populated-IsPopulated, validate_verified-IsVerified}
use miradex_client.Flow.{
  Flow, Emission, Progress, StageCase, entering, cancelling, finished, failing, refunding,
  cancelling_done, ended, punished, unhandled, needs_verified, same_phase, set_flow_context,
  transition, emit_error, show_phase, say, if_populated, if_verified, say_and_verify,
  reach_terminal, stage_case, apply_stage, note, note_progress, see_status, map_core_progress,
  truthy, punished_reason, populated_result, verified_result, is_one_of, swap_status_stages,
  stage_cases, case_among,
}

-- The snapshot is there, and passes for the phases behind the deposit.
abbrev pub HasPopulated : Option FlowContext → Type 0
HasPopulated none = ⊥
HasPopulated (some ctx) = (p : PopulatedFlowContext) × (validate_populated ctx ≡ valid p)

-- The snapshot is there, and passes for the phases behind the verification.
abbrev pub HasVerified : Option FlowContext → Type 0
HasVerified none = ⊥
HasVerified (some ctx) = (v : VerifiedFlowContext) × (validate_verified ctx ≡ valid v)

-- What a phase asks of its snapshot. Two phases are never emitted.
abbrev pub Fits : AtomicPhase → Option FlowContext → Type 0
Fits AtomicPhase.awaiting_deposit snapshot = HasPopulated snapshot
Fits AtomicPhase.deposit_detected snapshot = HasPopulated snapshot
Fits AtomicPhase.signing snapshot = HasVerified snapshot
Fits AtomicPhase.funding snapshot = HasVerified snapshot
Fits AtomicPhase.computing_encsig snapshot = HasVerified snapshot
Fits AtomicPhase.confirming snapshot = HasVerified snapshot
Fits AtomicPhase.swapping snapshot = HasVerified snapshot
Fits AtomicPhase.sweeping snapshot = HasVerified snapshot
Fits AtomicPhase.awaiting_user_action snapshot = ⊥
Fits AtomicPhase.verifying snapshot = ⊥
Fits _ snapshot = Unit

-- No phase is emitted twice in a row.
abbrev pub Apart : AtomicPhase → List Emission → Type 0
Apart last [] = same_phase last AtomicPhase.idle ≡ true
Apart last (e ∷ older) =
    (last ≡ e.phase) × ((p : AtomicPhase) × (same_phase e.phase p ≡ false) × Apart p older)

-- Each emission's snapshot is what its phase asks for, and no phase comes twice in a row.
pub record IsShown (flow : Flow) : Type 0 where
  pub fit : All (λ e. Fits e.phase e.snapshot) flow.emitted
  pub apart : Apart flow.last flow.emitted

transition-IsShown :
    (e : Emission) (flow : Flow)
    → IsShown flow
    → Fits e.phase e.snapshot
    → IsShown (transition e flow)
unfolding transition
transition-IsShown e flow shown fits = elim (Bool-cases (same_phase e.phase flow.last)) [
  | inl h ↦ rw h shown
  | inr h ↦ rw h (record { fit = (fits, shown.fit); apart = (refl, (flow.last, h, shown.apart)) })
]

pub set_flow_context-IsShown :
    (change : Patch) (flow : Flow) → IsShown flow → IsShown (set_flow_context change flow)
unfolding set_flow_context
set_flow_context-IsShown change flow shown = by_ctx flow.ctx refl
  where
    by_ctx : (ctx : Option FlowContext) → flow.ctx ≡ ctx → IsShown (set_flow_context change flow)
    by_ctx none h = rw h (record { fit = shown.fit; apart = shown.apart })
    by_ctx (some ctx) h = rw h (record { fit = shown.fit; apart = shown.apart })

pub show_phase-IsShown :
    (phase : AtomicPhase) (tx_hash : Option String) (flow : Flow)
    → IsShown flow
    → Fits phase flow.ctx
    → IsShown (show_phase phase tx_hash flow)
show_phase-IsShown phase tx_hash flow shown fits =
    transition-IsShown (record { phase = phase; snapshot = flow.ctx; tx_hash = tx_hash }) flow shown
      fits

pub emit_error-IsShown : (flow : Flow) → IsShown flow → IsShown (emit_error flow)
unfolding emit_error
emit_error-IsShown flow shown = show_phase-IsShown AtomicPhase.failed none flow shown tt

-- The phases that ask for no more than a verified context, or a populated one.
abbrev pub IsAskedVerified : AtomicPhase → Type 0
IsAskedVerified phase = (ctx : Option FlowContext) → HasVerified ctx → Fits phase ctx

abbrev pub IsAskedPopulated : AtomicPhase → Type 0
IsAskedPopulated phase = (ctx : Option FlowContext) → HasPopulated ctx → Fits phase ctx

verified_result-IsShown :
    (phase : AtomicPhase) (ctx : FlowContext) (r : FlowContextResult VerifiedFlowContext)
    (flow : Flow)
    → IsAskedVerified phase
    → validate_verified ctx ≡ r
    → IsShown flow
    → IsShown (verified_result phase r flow)
verified_result-IsShown phase ctx (invalid fields) flow asked h shown =
    emit_error-IsShown flow shown
verified_result-IsShown phase ctx (valid v) flow asked h shown = transition-IsShown _ flow shown (
    asked _ (
      v,
      subst (λ c. validate_verified c ≡ valid v)
          (sym (validate_verified-IsVerified ctx v h).populated.context) h,
    ))

pub if_verified-IsShown :
    (phase : AtomicPhase) (ctx : Option FlowContext) (flow : Flow)
    → IsAskedVerified phase
    → IsShown flow
    → IsShown (if_verified phase ctx flow)
unfolding if_verified
if_verified-IsShown phase none flow asked shown = emit_error-IsShown flow shown
if_verified-IsShown phase (some ctx) flow asked shown =
    verified_result-IsShown phase ctx (validate_verified ctx) flow asked refl shown

populated_result-IsShown :
    (phase : AtomicPhase) (ctx : FlowContext) (r : FlowContextResult PopulatedFlowContext)
    (flow : Flow)
    → IsAskedPopulated phase
    → validate_populated ctx ≡ r
    → IsShown flow
    → IsShown (populated_result phase r flow)
populated_result-IsShown phase ctx (invalid fields) flow asked h shown =
    emit_error-IsShown flow shown
populated_result-IsShown phase ctx (valid v) flow asked h shown = transition-IsShown _ flow shown (
    asked _ (
      v,
      subst (λ c. validate_populated c ≡ valid v)
          (sym (validate_populated-IsPopulated ctx v h).1.context) h,
    ))

pub if_populated-IsShown :
    (phase : AtomicPhase) (ctx : Option FlowContext) (flow : Flow)
    → IsAskedPopulated phase
    → IsShown flow
    → IsShown (if_populated phase ctx flow)
unfolding if_populated
if_populated-IsShown phase none flow asked shown = emit_error-IsShown flow shown
if_populated-IsShown phase (some ctx) flow asked shown =
    populated_result-IsShown phase ctx (validate_populated ctx) flow asked refl shown

pub say-IsShown :
    (kind : ExtraType) (text : String) (flow : Flow) → IsShown flow → IsShown (say kind text flow)
say-IsShown kind text flow shown = set_flow_context-IsShown _ flow shown

pub say_and_verify-IsShown :
    (kind : ExtraType) (text : String) (phase : AtomicPhase) (flow : Flow)
    → IsAskedVerified phase
    → IsShown flow
    → IsShown (say_and_verify kind text phase flow)
say_and_verify-IsShown kind text phase flow asked shown =
    if_verified-IsShown phase _ (say kind text flow) asked (say-IsShown kind text flow shown)

reach_terminal-IsShown : (flow : Flow) → IsShown flow → IsShown (reach_terminal flow)
reach_terminal-IsShown flow shown = record { fit = shown.fit; apart = shown.apart }

-- A case of the switch leads to a phase behind the verification, if it asks for one.
IsCase : StageCase → Type 0
IsCase (needs_verified phase) = IsAskedVerified phase
IsCase _ = Unit

unfoldable pub as_it_is : (ctx : Option FlowContext) → HasVerified ctx → HasVerified ctx
as_it_is ctx h = h

case_among-IsCase :
    (stage : String) (cases : List (List String × StageCase))
    → All (λ entry. IsCase entry.1) cases
    → IsCase (case_among stage cases)
unfolding IsCase
case_among-IsCase stage [] h = tt
case_among-IsCase stage ((stages, c) ∷ cases) (asked, others) =
    elim (Bool-cases (is_one_of stage stages)) [
      | inl h ↦ rw h asked
      | inr h ↦ rw h (case_among-IsCase stage cases others)
    ]

stage_case-IsCase : (stage : String) → IsCase (stage_case stage)
unfolding stage_case IsCase as_it_is
stage_case-IsCase stage = case_among-IsCase stage stage_cases (
  tt,
  (
    as_it_is,
    (
      as_it_is,
      (as_it_is, (as_it_is, (as_it_is, (as_it_is, (tt, (tt, (tt, (tt, (tt, (tt, (tt, tt))))))))))),
    ),
  ),
)

apply_stage-IsShown :
    (c : StageCase) (p : Progress) (flow : Flow)
    → IsCase c
    → IsShown flow
    → IsShown (apply_stage c p flow)
unfolding apply_stage IsCase as_it_is
apply_stage-IsShown entering p flow asked shown =
    show_phase-IsShown AtomicPhase.creating_swap none (say message p.text flow)
      (say-IsShown message p.text flow shown) tt
apply_stage-IsShown (needs_verified phase) p flow asked shown =
    say_and_verify-IsShown message p.text phase flow asked shown
apply_stage-IsShown finished p flow asked shown =
    show_phase-IsShown AtomicPhase.completed p.tx_hash
      (reach_terminal (say message "Swap completed" flow))
      (reach_terminal-IsShown (say message "Swap completed" flow)
        (say-IsShown message "Swap completed" flow shown))
      tt
apply_stage-IsShown failing p flow asked shown =
    show_phase-IsShown AtomicPhase.failed none (reach_terminal (say error p.text flow))
      (reach_terminal-IsShown (say error p.text flow) (say-IsShown error p.text flow shown)) tt
apply_stage-IsShown refunding p flow asked shown =
    show_phase-IsShown AtomicPhase.refunded p.tx_hash (reach_terminal flow)
      (reach_terminal-IsShown flow shown) tt
apply_stage-IsShown cancelling_done p flow asked shown =
    show_phase-IsShown AtomicPhase.cancelled none (reach_terminal flow)
      (reach_terminal-IsShown flow shown) tt
apply_stage-IsShown cancelling p flow asked shown =
    show_phase-IsShown AtomicPhase.creating_swap none (say warning p.text flow)
      (say-IsShown warning p.text flow shown) tt
apply_stage-IsShown ended p flow asked shown =
    show_phase-IsShown AtomicPhase.failed none flow shown tt
apply_stage-IsShown punished p flow asked shown =
    say_and_verify-IsShown warning (punished_reason p.text) AtomicPhase.swapping flow as_it_is shown
apply_stage-IsShown unhandled p flow asked shown = shown

note-IsShown :
    {A : Type 0} (o : Option A) (change : A → Patch) (flow : Flow)
    → IsShown flow
    → IsShown (note o change flow)
note-IsShown none change flow shown = shown
note-IsShown (some a) change flow shown = set_flow_context-IsShown _ flow shown

see_status-IsShown : (stage : String) (flow : Flow) → IsShown flow → IsShown (see_status stage flow)
see_status-IsShown stage flow shown = elim (Bool-cases (is_one_of stage swap_status_stages)) [
  | inl h ↦ rw h (record { fit = shown.fit; apart = shown.apart })
  | inr h ↦ rw h shown
]

note_progress-IsShown : (p : Progress) (flow : Flow) → IsShown flow → IsShown (note_progress p flow)
unfolding note_progress
note_progress-IsShown p flow shown =
    note-IsShown p.verification _ _
      (note-IsShown (truthy p.swap_number) _ _ (note-IsShown (truthy p.swap_id) _ flow shown))

pub map_core_progress-IsShown :
    (p : Progress) (flow : Flow) → IsShown flow → IsShown (map_core_progress p flow)
unfolding map_core_progress
map_core_progress-IsShown p flow shown =
    apply_stage-IsShown (stage_case p.stage) p _ (stage_case-IsCase p.stage)
      (see_status-IsShown p.stage _ (note_progress-IsShown p flow shown))
