-- ===== src/Drive/Loop.antt =====
-- The loop `driveSwapToCompletion` of src/atomic-swap/drive.ts. A run is a list of rounds; one
-- that the list ends before the loop does is pending.
use Prim.Native.String.{String}
use miradex_client.Prelude.{
  ℕ, Bool, false, not, ◌&&◌, ◌||◌, Option, none, some, List, [], ◌∷◌, ◌++◌, leb, str_eq,
  if◌then◌else◌,
}
use miradex_client.Errors.Codes.{
  Failure, protocol_error, swap_cancelled, plain_error, e_drive_timeout, e_protocol_params_missing,
}
use miradex_client.Status.{is_terminal, is_pre_funding}
use miradex_client.Protocol.{
  ProtocolParams, SwapDetail, ExtractedProtocolData, extract_protocol_data, present,
}
use miradex_client.Drive.{Services, Tick, Event, progress, swept, State, next, again, stop, fail}
use miradex_client.Drive.Acts.{Act, ◌>>=◌, ◌>>◌, tell, poll_again, finish, throw, attempt}
use miradex_client.Drive.Fund.{fund}
use miradex_client.Drive.Encsig.{submit_encsig}

-- `action === name`
abbrev pub is_action : String → Option String → Bool
is_action name none = false
is_action name (some a) = str_eq a name

abbrev pub has_s_a_monero : Option ProtocolParams → Bool
has_s_a_monero none = false
has_s_a_monero (some p) = present p.s_a_monero

unfoldable pub sweep : Tick → ExtractedProtocolData → Act (Unit {0})
sweep t pdx =
    if not (has_s_a_monero pdx.params)
    then throw (protocol_error e_protocol_params_missing)
    else (do
      tell (progress "sweeping")
      tx_hash ← attempt t.sweep
      tell (swept tx_hash)
      tell (progress "complete")
      finish)

pub data Outcome : Type 0 where
  finished : Outcome
  failed : Failure → Outcome
  pending : Outcome

module _ (sv : Services) (deadline : ℕ) where
  -- The branch that the status and the required action choose.
  unfoldable pub dispatch : Tick → SwapDetail → Act (Unit {0})
  dispatch t detail =
      let pdx = extract_protocol_data detail in
      if is_terminal detail.status
      then (do tell (progress detail.status); finish)
      else if leb deadline t.now && is_pre_funding detail.status
      then throw (protocol_error e_drive_timeout)
      else if is_action "fund" detail.action
      then fund sv t detail pdx
      else if is_action "submit_encsig" detail.action
      then submit_encsig sv t detail pdx
      else if is_action "sweep" detail.action || str_eq detail.status "sending"
      then sweep t pdx
      else if is_action "cancel" detail.action || is_action "refund" detail.action
      then (do tell (progress detail.status); finish)
      else (do tell (progress detail.status); poll_again)

  unfoldable pub round : Tick → Act (Unit {0})
  round t =
      if t.aborted then throw swap_cancelled else (do detail ← attempt t.detail; dispatch t detail)

  -- Where a round goes on, `delay` comes first, which rejects if the signal is aborted.
  unfoldable pub drive_from : State → List Tick → List Event × Outcome
  drive_from s [] = ([], pending)
  drive_from s (t ∷ ts) =
      let r = round t s in
      let rest = drive_from r.1 ts in
      let onward : List Event × Outcome =
        if t.aborted_asleep then (r.0, failed plain_error) else (r.0 ++ rest.0, rest.1) in
      elim r.2 [
        | next u ↦ onward
        | again ↦ onward
        | stop ↦ (r.0, finished)
        | fail e ↦ (r.0, failed e)
      ]
