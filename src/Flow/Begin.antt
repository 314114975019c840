-- ===== src/Flow/Begin.antt =====
-- src/engine/flows/atomic-flow.ts: `start`, `resumeFromKeystore`, `driveSwapToCompletion` and
-- `pollUntilTerminal`. The answers of each call are given; an exception leads to `handleError`.
use Prim.Native.String.{String}
use miradex_client.Prelude.{
  Bool, true, false, ◌&&◌, ◌||◌, Option, none, some, List, [], ◌∷◌, ◌++◌, str_eq, if◌then◌else◌,
}
use miradex_client.Errors.Codes.{Result, ok, err, Failure}
use miradex_client.Status.{is_terminal}
use miradex_client.Refund.{Bitcoin, Signer}
use miradex_client.Flow.Context.{message, no_change}
use miradex_client.Flow.{Flow, Progress, set_flow_context, say, map_core_progress}
use miradex_client.Flow.Finish.{
  TerminalDetail, no_detail, emit_terminal, handle_error, SweepWorld, execute_sweep,
}
use miradex_client.Flow.Refunding.{
  RefundWorld, RefundTerms, Refunded, Act, saves, is_truthy, execute_refund,
}

-- The exception that leaves a step, as `handleError` meets it.
pub record Thrown : Type 0 where
  pub failure : Failure
  pub error_text : String
  pub aborted : Bool

-- The required action of a swap's detail.
pub data Action : Type 0 where
  no_action refund_action sweep_action other_action : Action

-- The detail that is asked for behind the driver, and at each poll.
pub record PolledDetail : Type 0 where
  pub status : String
  pub action : Action
  pub params : Option RefundTerms
  pub terminal : TerminalDetail

-- What a poll meets: whether the signal is aborted before it and behind its delay, the detail unless
-- the request fails, and the worlds of a refund and of a sweep.
pub record Poll : Type 0 where
  pub aborted_before : Bool
  pub aborted_behind : Bool
  pub detail : Option PolledDetail
  pub refund : RefundWorld
  pub sweep : SweepWorld

-- The flow, what went out, and whether the polls are over.
pub record Polled : Type 0 where
  pub flow : Flow
  pub acts : List Act
  pub is_over : Bool

module _ (b : Bitcoin) (signer : Signer) (swap_id : String) where
  -- Parameters with a full refund's signature are cached for a later refund.
  abbrev pub primes : (has_save : Bool) → Option RefundTerms → List Act
  primes has_save none = []
  primes has_save (some terms) =
      if has_save && is_truthy terms.tx_full_refund_encsig then saves terms ∷ [] else []

  abbrev pub after_acts : List Act → Polled → Polled
  after_acts acts polled = record polled { acts = acts ++ polled.acts }

  -- An exception of the refund is caught, and the next poll comes.
  abbrev pub after_refund : Refunded → Polled
  after_refund r = record {
    flow = r.flow;
    acts = r.acts;
    is_over = elim r.thrown [ none ↦ true | some e ↦ false ];
  }

  unfoldable pub poll_action : Action → Poll → Flow → Polled
  unfolding execute_refund execute_sweep
  poll_action refund_action w flow = after_refund (execute_refund b signer w.refund flow)
  poll_action sweep_action w flow = record {
    flow = execute_sweep swap_id w.sweep flow;
    acts = [];
    is_over = true;
  }
  poll_action no_action w flow = record { flow = flow; acts = []; is_over = false }
  poll_action other_action w flow = record { flow = flow; acts = []; is_over = false }

  unfoldable pub poll_detail : Option PolledDetail → Poll → Flow → Polled
  unfolding emit_terminal poll_action
  poll_detail none w flow = record { flow = flow; acts = []; is_over = false }
  poll_detail (some detail) w flow =
      if is_terminal detail.status
      then record {
        flow = emit_terminal swap_id detail.status detail.terminal flow;
        acts = [];
        is_over = true;
      }
      else after_acts (primes w.refund.has_save detail.params) (poll_action detail.action w flow)

  abbrev pub poll_once : Poll → Flow → Polled
  poll_once w flow = poll_detail w.detail w flow

  abbrev pub poll_done : Polled → (aborted_behind : Bool) → (rest : Flow → Polled) → Polled
  poll_done polled aborted_behind rest =
      let later = rest polled.flow in
      if polled.is_over || aborted_behind
      then record polled { is_over = true }
      else record { flow = later.flow; acts = polled.acts ++ later.acts; is_over = later.is_over }

  -- The polls, as the world gives them. A list that ends first leaves the loop where it is.
  unfoldable pub poll_until_terminal : List Poll → Flow → Polled
  unfolding poll_detail
  poll_until_terminal [] flow = record { flow = flow; acts = []; is_over = false }
  poll_until_terminal (w ∷ ws) flow =
      let rest = poll_until_terminal ws in
      if w.aborted_before
      then record { flow = flow; acts = []; is_over = true }
      else poll_done (poll_once w flow) w.aborted_behind rest

-- What `driveSwapToCompletion` meets: the provider that is set up, the progress that the driver
-- reports and what it returns or throws, the detail behind it, and the worlds that follow.
pub record DriveWorld : Type 0 where
  pub provider : Result (Unit {0})
  pub progress : List Progress
  pub driven : Result String
  pub detail : Option PolledDetail
  pub refund : RefundWorld
  pub sweep : SweepWorld
  pub polls : List Poll
  pub error_text : String
  pub aborted : Bool

unfoldable pub map_all : List Progress → Flow → Flow
unfolding map_core_progress
map_all [] flow = flow
map_all (p ∷ ps) flow = map_all ps (map_core_progress p flow)

-- The flow, and what went out.
pub record Ran : Type 0 where
  pub flow : Flow
  pub acts : List Act

module _ (b : Bitcoin) (signer : Signer) (w : DriveWorld) where
  abbrev pub fails : Failure → Flow → List Act → Ran
  fails failure flow acts = record {
    flow = handle_error failure w.error_text w.aborted flow;
    acts = acts;
  }

  abbrev pub thrown_ran : Option Failure → Flow → List Act → Ran
  thrown_ran none flow acts = record { flow = flow; acts = acts }
  thrown_ran (some failure) flow acts = fails failure flow acts

  abbrev pub refund_ran : Refunded → Ran
  refund_ran r = thrown_ran r.thrown r.flow r.acts

  abbrev pub polled_ran : Polled → Ran
  polled_ran polled = record { flow = polled.flow; acts = polled.acts }

  -- Behind the driver, without an action: the swap is over, or the flow waits.
  unfoldable pub settle : (swap_id status : String) → Flow → Ran
  unfolding set_flow_context emit_terminal poll_until_terminal
  settle swap_id status flow =
      let waiting =
        poll_until_terminal b signer swap_id w.polls (say message "Waiting for server..." flow) in
      if is_terminal status
      then record { flow = emit_terminal swap_id status no_detail flow; acts = [] }
      else polled_ran waiting

  unfoldable pub follow_action : (swap_id status : String) → Action → Flow → Ran
  unfolding settle execute_refund execute_sweep
  follow_action swap_id status refund_action flow =
      refund_ran (execute_refund b signer w.refund flow)
  follow_action swap_id status sweep_action flow = record {
    flow = execute_sweep swap_id w.sweep flow;
    acts = [];
  }
  follow_action swap_id status no_action flow =
      if str_eq status "sending"
      then record { flow = execute_sweep swap_id w.sweep flow; acts = [] }
      else settle swap_id status flow
  follow_action swap_id status other_action flow =
      if str_eq status "sending"
      then record { flow = execute_sweep swap_id w.sweep flow; acts = [] }
      else settle swap_id status flow

  -- The detail behind the driver; where it cannot be had, the swap counts as completed.
  unfoldable pub follow_driver : (swap_id : String) → Option PolledDetail → Flow → Ran
  unfolding set_flow_context follow_action
  follow_driver swap_id none flow = follow_action swap_id "completed" no_action flow
  follow_driver swap_id (some detail) flow = follow_action swap_id detail.status detail.action (
      set_flow_context
        (record no_change {
          swap_id = some (some swap_id);
          swap_number = some detail.terminal.swap_number;
        })
        flow)

  -- What the driver returned or threw.
  unfoldable pub driven_ran : Result String → Flow → Ran
  unfolding handle_error follow_driver
  driven_ran (err failure) flow = fails failure flow []
  driven_ran (ok swap_id) flow =
      if flow.has_reached_terminal
      then record { flow = flow; acts = [] }
      else follow_driver swap_id w.detail flow

  unfoldable pub drive_with : Result (Unit {0}) → Flow → Ran
  unfolding map_all handle_error driven_ran
  drive_with (err failure) flow = fails failure flow []
  drive_with (ok done) flow = driven_ran w.driven (map_all w.progress flow)

  abbrev pub drive_swap_to_completion : Flow → Ran
  drive_swap_to_completion flow = drive_with w.provider flow
