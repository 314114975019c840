-- ===== src/Engine.antt =====
-- src/engine: the stages that the pipeline of a swap shows (pipeline.ts, with the phases of
-- flows/swap-flow-state.ts and flows/atomic-flow-state.ts), and where an error leads
-- (flows/error-routing.ts). A phase is its tag, without its payload. A read-only set of stages is
-- the list of them in their order. The message of a route is left out.
pub mod Stages
pub mod Routes
mod Tests
use Prim.Native.String.{String}
use miradex_client.Prelude.{
  ℕ, zero, suc, Bool, true, false, not, ◌||◌, Option, none, some, List, [], ◌∷◌, str_eq,
  if◌then◌else◌,
}
use miradex_client.Errors.Codes.{
  Failure, verification_error, protocol_error, swap_cancelled, plain_error,
}
use miradex_client.Status.{is_pre_funding}

-- `SwapFlowState['phase']`
pub data SwapPhase : Type 0 where
  idle wizard_from wizard_to wizard_amount wizard_dest wizard_refund wizard_confirm : SwapPhase
  provider_warning solving_pow creating_swap awaiting_deposit verification_failed : SwapPhase
  confirming swapping sending cancelling completed refunded punished expired : SwapPhase
  failed cancelled : SwapPhase

-- `AtomicFlowState['phase']`
pub data AtomicPhase : Type 0 where
  idle keygen keystore_saved awaiting_deposit deposit_detected creating_swap : AtomicPhase
  verifying signing funding computing_encsig confirming swapping sweeping : AtomicPhase
  awaiting_user_action verifying_cancel cancelling refunding completed refunded : AtomicPhase
  cancelled failed stalled : AtomicPhase

pub data PipelineStage : Type 0 where
  stage_pending stage_deposit stage_confirming stage_exchanging stage_cancelling : PipelineStage
  stage_refunded stage_expired stage_complete : PipelineStage

abbrev pub stage_order : List PipelineStage
stage_order = stage_pending ∷ stage_deposit ∷ stage_confirming ∷ stage_exchanging ∷ []

unfoldable pub swap_pipeline_stage : SwapPhase → Option PipelineStage
swap_pipeline_stage SwapPhase.idle = none
swap_pipeline_stage wizard_from = none
swap_pipeline_stage wizard_to = none
swap_pipeline_stage wizard_amount = none
swap_pipeline_stage wizard_dest = none
swap_pipeline_stage wizard_refund = none
swap_pipeline_stage wizard_confirm = none
swap_pipeline_stage provider_warning = none
swap_pipeline_stage solving_pow = some stage_pending
swap_pipeline_stage SwapPhase.creating_swap = some stage_pending
swap_pipeline_stage SwapPhase.awaiting_deposit = some stage_deposit
swap_pipeline_stage verification_failed = some stage_deposit
swap_pipeline_stage SwapPhase.confirming = some stage_confirming
swap_pipeline_stage SwapPhase.swapping = some stage_exchanging
swap_pipeline_stage sending = some stage_exchanging
swap_pipeline_stage SwapPhase.cancelling = some stage_cancelling
swap_pipeline_stage SwapPhase.completed = some stage_complete
swap_pipeline_stage SwapPhase.refunded = some stage_refunded
swap_pipeline_stage expired = some stage_expired
swap_pipeline_stage punished = some stage_complete
swap_pipeline_stage SwapPhase.failed = none
swap_pipeline_stage SwapPhase.cancelled = none

unfoldable pub atomic_pipeline_stage : AtomicPhase → Option PipelineStage
atomic_pipeline_stage AtomicPhase.idle = none
atomic_pipeline_stage keygen = some stage_pending
atomic_pipeline_stage keystore_saved = some stage_pending
atomic_pipeline_stage AtomicPhase.awaiting_deposit = some stage_deposit
atomic_pipeline_stage deposit_detected = some stage_deposit
atomic_pipeline_stage AtomicPhase.creating_swap = some stage_confirming
atomic_pipeline_stage verifying = some stage_confirming
atomic_pipeline_stage signing = some stage_confirming
atomic_pipeline_stage funding = some stage_confirming
atomic_pipeline_stage computing_encsig = some stage_exchanging
atomic_pipeline_stage AtomicPhase.confirming = some stage_exchanging
atomic_pipeline_stage AtomicPhase.swapping = some stage_exchanging
atomic_pipeline_stage sweeping = some stage_exchanging
atomic_pipeline_stage awaiting_user_action = some stage_exchanging
atomic_pipeline_stage verifying_cancel = some stage_cancelling
atomic_pipeline_stage AtomicPhase.cancelling = some stage_cancelling
atomic_pipeline_stage refunding = some stage_cancelling
atomic_pipeline_stage AtomicPhase.completed = some stage_complete
atomic_pipeline_stage AtomicPhase.refunded = some stage_refunded
atomic_pipeline_stage AtomicPhase.cancelled = some stage_refunded
atomic_pipeline_stage AtomicPhase.failed = none
atomic_pipeline_stage stalled = some stage_exchanging

-- `STAGE_ORDER.slice(0, STAGE_ORDER.indexOf(stage))` where the stage is in the order.
abbrev pub before : PipelineStage → List PipelineStage
before stage_pending = []
before stage_deposit = stage_pending ∷ []
before stage_confirming = stage_pending ∷ stage_deposit ∷ []
before stage_exchanging = stage_pending ∷ stage_deposit ∷ stage_confirming ∷ []
before _ = []

unfoldable pub compute_done_stages : Option PipelineStage → List PipelineStage
compute_done_stages none = []
compute_done_stages (some stage_cancelling) = stage_order
compute_done_stages (some stage_complete) = stage_order
compute_done_stages (some stage_refunded) = stage_pending ∷ stage_deposit ∷ stage_confirming ∷ []
compute_done_stages (some stage_expired) = stage_pending ∷ []
compute_done_stages (some stage) = before stage

unfoldable pub map_server_status : String → Option PipelineStage
map_server_status status =
    if str_eq status "initializing" || str_eq status "pending"
    then some stage_pending
    else if str_eq status "awaiting_funding"
    then some stage_deposit
    else if str_eq status "deposited"
    then some stage_confirming
    else if str_eq status "swapping" || str_eq status "sending"
    then some stage_exchanging
    else if str_eq status "cancelling"
    then some stage_cancelling
    else if str_eq status "completed" || str_eq status "withheld" || str_eq status "punished"
    then some stage_complete
    else none

pub data Route : Type 0 where
  route_cancelled route_stalled route_failed : Route

-- The routing by the last seen status, for an error that is neither a cancellation nor a failed
-- verification.
abbrev pub route_by_status : Option String → Route
route_by_status none = route_failed
route_by_status (some status) = if is_pre_funding status then route_failed else route_stalled

unfoldable pub route_error :
    Failure → (signal_aborted : Bool) → (last_seen_status : Option String) → Route
route_error e true last_seen_status = route_cancelled
route_error swap_cancelled false last_seen_status = route_cancelled
route_error (verification_error code) false last_seen_status = route_failed
route_error (protocol_error code) false last_seen_status = route_by_status last_seen_status
route_error plain_error false last_seen_status = route_by_status last_seen_status
