-- ===== src/Retry.antt =====
-- src/lib/retry.ts: retries by the category of the error.
-- The world answers in rounds: whether the signal is aborted when a round begins, what the call
-- of `fn` gives at the number of the attempt, and whether the abort comes during the sleep.
-- Times are whole milliseconds. A schedule of rounds that ends before the loop leaves it pending.
pub mod Backoff
pub mod Outcomes
mod Tests
use miradex_client.Prelude.{
  ℕ, zero, suc, ◌+◌, ◌-◌, ◌*◌, ◌^◌, min, Bool, true, false, not, ◌&&◌, List, [], ◌∷◌, ltb, leb,
  ◌==◌, if◌then◌else◌,
}
use miradex_client.Errors.{ErrorCategory, is_fatal, is_unbounded}

abbrev pub default_max_bounded : ℕ
default_max_bounded = 3

abbrev pub default_base_ms : ℕ
default_base_ms = 500

abbrev pub default_max_backoff_ms : ℕ
default_max_backoff_ms = 60000

abbrev pub max_exponent : ℕ
max_exponent = 30

unfoldable pub compute_backoff_ms : ℕ → ℕ → ℕ → ℕ
compute_backoff_ms retry_number base_ms max_ms =
    if retry_number == 0 then 0 else min (base_ms * 2 ^ min (retry_number - 1) max_exponent) max_ms

pub record RetryInfo : Type 0 where
  pub category : ErrorCategory
  pub attempt : ℕ
  pub backoff_ms : ℕ
  pub unbounded : Bool

pub data Answer (A E : Type 0) : Type 0 where
  returned : A → Answer A E
  threw : E → Answer A E

pub record Round (A E : Type 0) : Type 0 where
  pub aborted : Bool
  pub answer : ℕ → Answer A E
  pub aborted_asleep : Bool

pub data Outcome (A E : Type 0) : Type 0 where
  resolved : A → Outcome A E
  rejected : E → Outcome A E
  swap_cancelled : Outcome A E
  pending : Outcome A E

pub record RetryOptions (E : Type 0) : Type 0 where
  pub max_bounded : ℕ
  pub base_ms : ℕ
  pub max_backoff_ms : ℕ
  pub classify : E → ErrorCategory

-- The counters of the loop.
pub record Counters : Type 0 where
  pub unbounded_retries : ℕ
  pub bounded_retries : ℕ
  pub attempt : ℕ

abbrev pub start : Counters
start = record { unbounded_retries = 0; bounded_retries = 0; attempt = 0 }

-- `sleepWithSignal`: true if it rejects. A sleep of no time does not look at the signal.
pub sleep_rejects : ℕ → Bool → Bool
sleep_rejects ms aborted = not (ms == 0) && aborted

module _ {E : Type 0} (o : RetryOptions E) where
  pub count_error : Counters → E → Counters
  count_error c err =
      if is_unbounded (o.classify err)
      then record c { unbounded_retries = c.unbounded_retries + 1; attempt = c.attempt + 1 }
      else record c { bounded_retries = c.bounded_retries + 1; attempt = c.attempt + 1 }

  -- The error is thrown on: its category is fatal, or the bounded retries are used up.
  pub surfaces : Counters → E → Bool
  unfolding count_error
  surfaces c err =
      if is_fatal (o.classify err)
      then true
      else not (is_unbounded (o.classify err))
        && ltb o.max_bounded (count_error c err).bounded_retries

  pub retry_info : Counters → E → RetryInfo
  unfolding count_error
  retry_info c err =
      let c' = count_error c err in
      let total = c'.unbounded_retries + c'.bounded_retries in
      record {
        category = o.classify err;
        attempt = total;
        backoff_ms = compute_backoff_ms total o.base_ms o.max_backoff_ms;
        unbounded = is_unbounded (o.classify err);
      }

module _ {A E : Type 0} (o : RetryOptions E) where
  -- The body of `while (true)`, from the counters of the loop; with it the calls of `onRetry`.
  pub retry_from : Counters → List (Round A E) → List RetryInfo × Outcome A E
  retry_from c [] = ([], pending)
  retry_from c (r ∷ rs) = elim r.aborted [
    | true ↦ ([], swap_cancelled)
    | false ↦ elim (r.answer c.attempt) [
      | returned a ↦ ([], resolved a)
      | threw err ↦ elim (surfaces o c err) [
        | true ↦ ([], rejected err)
        | false ↦
            let info = retry_info o c err in
            elim (sleep_rejects info.backoff_ms r.aborted_asleep) [
              | true ↦ (info ∷ [], swap_cancelled)
              | false ↦ let rest = retry_from (count_error o c err) rs in (info ∷ rest.0, rest.1)
            ]
      ]
    ]
  ]

  unfoldable pub with_retry : List (Round A E) → List RetryInfo × Outcome A E
  unfolding retry_from
  with_retry rounds = retry_from start rounds
