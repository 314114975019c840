-- ===== src/Flow.antt =====
-- src/engine/flows/atomic-flow.ts: `AtomicFlow`, which shows a swap of Bitcoin for Monero as a
-- sequence of phases. Flow/Context.antt is src/engine/flow-context.ts. The state is what the class
-- keeps between its calls: the context, the phase that was emitted last, the status that was seen
-- last, and the emissions so far, the newest first. Of an emission the phase, the snapshot and the
-- transaction's hash are kept; log lines are left out.
-- Flow/Finish.antt has the ends of a swap (sweep, errors, terminal statuses), Flow/Refunding.antt
-- the refund, Flow/Begin.antt the start and the resumption.
pub mod Context
pub mod Narrowing
pub mod Invariant
pub mod Ends
pub mod Finish
pub mod Refunding
pub mod Begin
pub mod Start
pub mod Resume
pub mod Runs
pub mod Calls
pub mod Traces
pub mod Resolved
pub mod Escape
mod Tests
use Prim.Native.String.{String}
use miradex_client.Prelude.{
  ℕ, Bool, true, false, not, ◌||◌, Option, none, some, List, [], ◌∷◌, str_eq, any, ◌==◌,
  if◌then◌else◌,
}
use miradex_client.Engine.{AtomicPhase}
use Context.{
  FlowContext, Verification, ExtraType, message, warning, error, PopulatedFlowContext,
  VerifiedFlowContext, FlowContextResult, valid, invalid, Patch, no_change, merge_flow_context,
  create_flow_context, validate_populated, validate_verified,
}

abbrev pub phase_index : AtomicPhase → ℕ
phase_index AtomicPhase.idle = 0
phase_index AtomicPhase.keygen = 1
phase_index AtomicPhase.keystore_saved = 2
phase_index AtomicPhase.awaiting_deposit = 3
phase_index AtomicPhase.deposit_detected = 4
phase_index AtomicPhase.creating_swap = 5
phase_index AtomicPhase.verifying = 6
phase_index AtomicPhase.signing = 7
phase_index AtomicPhase.funding = 8
phase_index AtomicPhase.computing_encsig = 9
phase_index AtomicPhase.confirming = 10
phase_index AtomicPhase.swapping = 11
phase_index AtomicPhase.sweeping = 12
phase_index AtomicPhase.awaiting_user_action = 13
phase_index AtomicPhase.verifying_cancel = 14
phase_index AtomicPhase.cancelling = 15
phase_index AtomicPhase.refunding = 16
phase_index AtomicPhase.completed = 17
phase_index AtomicPhase.refunded = 18
phase_index AtomicPhase.cancelled = 19
phase_index AtomicPhase.failed = 20
phase_index AtomicPhase.stalled = 21

-- `state.phase === prevPhase`
abbrev pub same_phase : AtomicPhase → AtomicPhase → Bool
same_phase p q = phase_index p == phase_index q

pub record Emission : Type 0 where
  pub phase : AtomicPhase
  pub snapshot : Option FlowContext
  pub tx_hash : Option String

pub record Flow : Type 0 where
  pub ctx : Option FlowContext
  pub last : AtomicPhase
  pub last_seen_status : Option String
  pub has_reached_terminal : Bool
  pub emitted : List Emission

abbrev pub new_flow : Flow
new_flow = record {
  ctx = none;
  last = AtomicPhase.idle;
  last_seen_status = none;
  has_reached_terminal = false;
  emitted = [];
}

unfoldable pub set_flow_context : Patch → Flow → Flow
set_flow_context change flow = elim flow.ctx [
  | none ↦ record flow { ctx = some (create_flow_context change) }
  | some ctx ↦ record flow { ctx = some (merge_flow_context ctx change) }
]

-- A phase that is the last one again is not emitted.
unfoldable pub transition : Emission → Flow → Flow
transition e flow =
    if same_phase e.phase flow.last
    then flow
    else record flow { last = e.phase; emitted = e ∷ flow.emitted }

-- The transition to a phase with the context as it is.
abbrev pub show_phase : AtomicPhase → (tx_hash : Option String) → Flow → Flow
show_phase phase tx_hash flow =
    transition (record { phase = phase; snapshot = flow.ctx; tx_hash = tx_hash }) flow

unfoldable pub emit_error : Flow → Flow
unfolding transition
emit_error flow = show_phase AtomicPhase.failed none flow

-- `setFlowContext({ extra: … })`
abbrev pub say : ExtraType → (text : String) → Flow → Flow
say kind text =
    set_flow_context
      (record no_change { extra = some (some (record { text = text; kind = kind })) })

abbrev pub populated_result : AtomicPhase → FlowContextResult PopulatedFlowContext → Flow → Flow
populated_result phase (invalid fields) flow = emit_error flow
populated_result phase (valid p) flow =
    transition (record { phase = phase; snapshot = some p.context; tx_hash = none }) flow

abbrev pub verified_result : AtomicPhase → FlowContextResult VerifiedFlowContext → Flow → Flow
verified_result phase (invalid fields) flow = emit_error flow
verified_result phase (valid v) flow =
    transition (record { phase = phase; snapshot = some v.populated.context; tx_hash = none }) flow

-- `requirePopulated` and the transition that its callers make with what it returns; a context that
-- does not pass is shown as failed.
unfoldable pub if_populated : AtomicPhase → Option FlowContext → Flow → Flow
unfolding emit_error transition
if_populated phase none flow = emit_error flow
if_populated phase (some ctx) flow = populated_result phase (validate_populated ctx) flow

-- The same for `requireVerified`.
unfoldable pub if_verified : AtomicPhase → Option FlowContext → Flow → Flow
unfolding emit_error transition
if_verified phase none flow = emit_error flow
if_verified phase (some ctx) flow = verified_result phase (validate_verified ctx) flow

-- Whether the two have let the phase through.
abbrev pub is_populated : Option FlowContext → Bool
is_populated none = false
is_populated (some ctx) = elim (validate_populated ctx) [ valid p ↦ true | invalid fields ↦ false ]

abbrev pub is_verified : Option FlowContext → Bool
is_verified none = false
is_verified (some ctx) = elim (validate_verified ctx) [ valid v ↦ true | invalid fields ↦ false ]

-- `AtomicSwapProgress`, what of it a flow reads.
pub record Progress : Type 0 where
  pub stage : String
  pub text : String
  pub swap_id : Option String
  pub swap_number : Option String
  pub verification : Option Verification
  pub tx_hash : Option String

-- The cases of the `switch` in `mapCoreProgress`.
pub data StageCase : Type 0 where
  entering cancelling finished failing refunding cancelling_done ended punished : StageCase
  unhandled : StageCase
  needs_verified : AtomicPhase → StageCase

abbrev pub is_one_of : String → List String → Bool
is_one_of text texts = any (λ t. str_eq text t) texts

-- `SWAP_STATUS_STAGES`
abbrev pub swap_status_stages : List String
swap_status_stages =
    "pending" ∷ "awaiting_funding" ∷ "initializing" ∷ "deposited" ∷ "swapping" ∷ "sending"
    ∷ "punished" ∷ []

abbrev pub entering_stages : List String
entering_stages =
    "keygen" ∷ "keystore_saved" ∷ "awaiting_deposit" ∷ "deposit_detected" ∷ "creating_swap"
    ∷ "initializing" ∷ "pending" ∷ "awaiting_funding" ∷ []

-- The cases, with the stages of each.
abbrev pub stage_cases : List (List String × StageCase)
stage_cases =
    (entering_stages, entering)
    ∷ ("verifying_xmr" ∷ "confirming" ∷ "deposited" ∷ [], needs_verified AtomicPhase.confirming)
    ∷ ("signing_psbt" ∷ [], needs_verified AtomicPhase.signing)
    ∷ ("funding" ∷ [], needs_verified AtomicPhase.funding)
    ∷ ("submit_encsig" ∷ [], needs_verified AtomicPhase.computing_encsig)
    ∷ ("swapping" ∷ "sending" ∷ [], needs_verified AtomicPhase.swapping)
    ∷ ("sweeping" ∷ [], needs_verified AtomicPhase.sweeping)
    ∷ ("complete" ∷ "completed" ∷ [], finished)
    ∷ ("failed" ∷ "error" ∷ [], failing)
    ∷ ("refunded" ∷ [], refunding)
    ∷ ("cancelled" ∷ [], cancelling_done)
    ∷ ("cancelling" ∷ [], cancelling)
    ∷ ("withheld" ∷ "expired" ∷ [], ended)
    ∷ ("punished" ∷ [], punished)
    ∷ []

abbrev pub case_among : (stage : String) → List (List String × StageCase) → StageCase
case_among stage [] = unhandled
case_among stage ((stages, c) ∷ cases) =
    if is_one_of stage stages then c else case_among stage cases

unfoldable pub stage_case : String → StageCase
stage_case stage = case_among stage stage_cases

abbrev pub reach_terminal : Flow → Flow
reach_terminal flow = record flow { has_reached_terminal = true }

-- A text that is there and is not empty.
abbrev pub truthy : Option String → Option String
truthy none = none
truthy (some text) = if str_eq text "" then none else some text

abbrev pub punished_reason : String → String
punished_reason text =
    if str_eq text ""
    then "BTC punished — recovering XMR via cooperative_xmr_redeem_after_punish..."
    else text

-- `setFlowContext` and then `requireVerified` with its transition.
abbrev pub say_and_verify : ExtraType → String → AtomicPhase → Flow → Flow
say_and_verify kind text phase flow =
    let said = say kind text flow in if_verified phase said.ctx said

unfoldable pub apply_stage : StageCase → Progress → Flow → Flow
unfolding set_flow_context transition if_verified
apply_stage entering p flow = show_phase AtomicPhase.creating_swap none (say message p.text flow)
apply_stage (needs_verified phase) p flow = say_and_verify message p.text phase flow
apply_stage finished p flow =
    show_phase AtomicPhase.completed p.tx_hash (reach_terminal (say message "Swap completed" flow))
apply_stage failing p flow =
    show_phase AtomicPhase.failed none (reach_terminal (say error p.text flow))
apply_stage refunding p flow = show_phase AtomicPhase.refunded p.tx_hash (reach_terminal flow)
apply_stage cancelling_done p flow = show_phase AtomicPhase.cancelled none (reach_terminal flow)
apply_stage cancelling p flow = show_phase AtomicPhase.creating_swap none (say warning p.text flow)
apply_stage ended p flow = show_phase AtomicPhase.failed none flow
apply_stage punished p flow =
    say_and_verify warning (punished_reason p.text) AtomicPhase.swapping flow
apply_stage unhandled p flow = flow

-- A value that is there is written to the context.
abbrev pub note {ℓ} : {A : Type ℓ} → Option A → (A → Patch) → Flow → Flow
note none change flow = flow
note (some value) change flow = set_flow_context (change value) flow

unfoldable pub note_progress : Progress → Flow → Flow
unfolding set_flow_context
note_progress p flow =
    let with_id =
      note (truthy p.swap_id) (λ id. record no_change { swap_id = some (some id) }) flow in
    let with_number =
      note (truthy p.swap_number) (λ n. record no_change { swap_number = some (some n) }) with_id in
    note p.verification (λ v. record no_change { verification = some (some v) }) with_number

abbrev pub see_status : String → Flow → Flow
see_status stage flow =
    if is_one_of stage swap_status_stages
    then record flow { last_seen_status = some stage }
    else flow

unfoldable pub map_core_progress : Progress → Flow → Flow
unfolding note_progress apply_stage
map_core_progress p flow =
    apply_stage (stage_case p.stage) p (see_status p.stage (note_progress p flow))
