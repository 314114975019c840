-- ===== src/Flow/Start.antt =====
-- src/engine/flows/atomic-flow.ts: `start`, `resumeFromKeystore` and `fetchDetailWithRetry`, from
-- the keys to the driver. The answers of each call are given, with whether the signal is aborted
-- where the code asks for it.
use Prim.Native.String.{String}
use miradex_client.Prelude.{
  ℕ, zero, suc, Bool, true, false, not, ◌||◌, Option, none, some, List, [], ◌∷◌, leb, ◌==◌,
  if◌then◌else◌,
}
use miradex_client.Errors.Codes.{Result, ok, err, swap_cancelled, plain_error}
use miradex_client.Engine.{AtomicPhase}
use miradex_client.Presign.{◌>>=◌}
use miradex_client.Refund.{Bitcoin, Signer}
use miradex_client.Flow.Context.{Patch, message, warning, no_change}
use miradex_client.Flow.{
  Flow, set_flow_context, transition, show_phase, say, if_populated, is_populated,
}
use miradex_client.Flow.Finish.{handle_error}
use miradex_client.Flow.Begin.{DriveWorld, Ran, drive_swap_to_completion}

pub record Keystore : Type 0 where
  pub id : String
  pub btc_address : String
  pub receive_address : String
  pub refund_address : String

-- Where the keys of a new swap come from: a keystore that is there, or new keys, which the server
-- has to verify before they are saved.
pub data KeySource : Type 0 where
  existing : Result Keystore → KeySource
  fresh : (valid : Result Bool) → (aborted : Bool) → (saved : Result Keystore) → KeySource

abbrev pub check_aborted : Bool → Result (Unit {0})
check_aborted true = err swap_cancelled
check_aborted false = ok tt

abbrev pub require_valid : Bool → Result (Unit {0})
require_valid true = ok tt
require_valid false = err plain_error

unfoldable pub keys_from : KeySource → Result Keystore
keys_from (existing loaded) = loaded
keys_from (fresh valid aborted saved) = do
  is_valid ← valid
  done ← require_valid is_valid
  checked ← check_aborted aborted
  saved

pub record StartWorld : Type 0 where
  pub dest_address : String
  pub refund_address : String
  pub wasm : Result (Unit {0})
  pub keys : KeySource
  pub aborted_when_saved : Bool
  pub fee_sats : Result ℕ
  pub required_btc : ℕ → String
  pub expected_xmr : Option String
  pub qr : Result String
  pub aborted_when_priced : Bool
  pub aborted_when_shown : Bool
  pub deposit : Result (Unit {0})
  pub drive : DriveWorld

abbrev pub start_patch : StartWorld → Patch
start_patch w = record no_change {
  from_token = some (some "BTC");
  to_token = some (some "XMR");
  dest_address = some (some w.dest_address);
  refund_address = some (some w.refund_address);
  provider = some (some "atomicswap");
  extra = some (some (record { text = "Initializing keygen..."; kind = message }));
}

module _ (b : Bitcoin) (signer : Signer) where
  -- A call that can throw: its exception goes to `handleError`.
  unfoldable pub attempt : {A : Type 0} → DriveWorld → Flow → Result A → (A → Flow → Ran) → Ran
  unfolding handle_error
  attempt d flow (err failure) next_step = record {
    flow = handle_error failure d.error_text d.aborted flow;
    acts = [];
  }
  attempt d flow (ok a) next_step = next_step a flow

  -- `requirePopulated` and its transition; a context that does not pass ends the flow.
  unfoldable pub populated_step : AtomicPhase → Flow → (Flow → Ran) → Ran
  unfolding if_populated
  populated_step phase flow next_step =
      let shown = if_populated phase flow.ctx flow in
      if is_populated flow.ctx then next_step shown else record { flow = shown; acts = [] }

  -- A detected deposit, and on to the driver.
  unfoldable pub go_on : DriveWorld → Flow → Ran
  go_on d flow =
      populated_step AtomicPhase.deposit_detected
        (say message "Deposit detected. Creating swap..." flow)
        (drive_swap_to_completion b signer d)

  -- From the deposit address on.
  unfoldable pub start_deposit : StartWorld → Flow → Ran
  start_deposit w flow = populated_step AtomicPhase.awaiting_deposit flow (λ shown.
      attempt w.drive shown (check_aborted w.aborted_when_shown)
        (λ checked after_check. attempt w.drive after_check w.deposit (λ deposit. go_on w.drive)))

  -- From the saved keystore on.
  unfoldable pub start_priced : StartWorld → Keystore → Flow → Ran
  start_priced w keystore saved =
      attempt w.drive saved (check_aborted w.aborted_when_saved) (λ checked f.
        attempt w.drive f w.fee_sats (λ fee_sats g. attempt w.drive g w.qr (λ qr h.
          let priced =
            set_flow_context
              (record no_change {
                deposit_addr = some (some keystore.btc_address);
                deposit_amount = some (some (w.required_btc fee_sats));
                expected_out = some w.expected_xmr;
                qr = some (some qr);
                extra = some (some (record { text = "Send "; kind = message }));
              })
              h in
          attempt w.drive priced (check_aborted w.aborted_when_priced) (λ done. start_deposit w))))

  unfoldable pub start : StartWorld → Flow → Ran
  start w flow =
      let begun =
        show_phase AtomicPhase.keygen none
          (set_flow_context (start_patch w) (record flow { has_reached_terminal = false })) in
      attempt w.drive begun w.wasm (λ done f.
        let keyed = show_phase AtomicPhase.keygen none (say message "Generating swap keys..." f) in
        attempt w.drive keyed (keys_from w.keys) (λ keystore g. start_priced w keystore (
          show_phase AtomicPhase.keystore_saved none
            (set_flow_context (record no_change { keystore_id = some (some keystore.id) }) g))))

-- `isTransientError`: a network error, or an error of the API with its status.
pub data FetchError : Type 0 where
  network_failure : FetchError
  api_failure : (status_code : ℕ) → FetchError
  other_failure : FetchError

unfoldable pub is_transient_error : FetchError → Bool
is_transient_error network_failure = true
is_transient_error (api_failure status_code) = leb 500 status_code || status_code == 429
is_transient_error other_failure = false

-- `MAX_TRANSIENT_RETRIES`
abbrev pub max_transient_retries : ℕ
max_transient_retries = 5

-- An answer of `getSwapDetail`, or its exception with whether the signal is aborted behind the delay.
pub data Fetch (A : Type 0) : Type 0 where
  fetched : A → Fetch A
  fetch_failed : FetchError → (aborted : Bool) → Fetch A

module _ {A : Type 0} where
  -- The attempts that are left, the answers, and the flow that shows each retry. Where the answers
  -- end first, the flow waits: `none`.
  unfoldable pub fetch_detail_with_retry :
      (attempts : ℕ) → List (Fetch A) → Flow → Flow × Option (Result A)
  unfolding set_flow_context transition
  fetch_detail_with_retry zero answers flow = (flow, some (err plain_error))
  fetch_detail_with_retry (suc attempts) [] flow = (flow, none)
  fetch_detail_with_retry (suc attempts) (fetched detail ∷ answers) flow = (flow, some (ok detail))
  fetch_detail_with_retry (suc attempts) (fetch_failed e aborted ∷ answers) flow =
      let shown =
        show_phase AtomicPhase.creating_swap none (say warning "Server error, retrying (" flow) in
      let rest = fetch_detail_with_retry attempts answers shown in
      if not (is_transient_error e)
      then (flow, some (err plain_error))
      else if aborted
      then (shown, some (err swap_cancelled))
      else rest
