-- ===== src/Retry/Tests.antt =====
-- Schedules of src/lib/retry.ts. An error is known by its category.
use native.Mathlib.Omega.{arith}
use miradex_client.Prelude.{ℕ, ◌≡◌, refl, false, List, [], ◌∷◌, ◌++◌, length}
use miradex_client.Errors.{ErrorCategory, network, unknown, rate_limit}
use miradex_client.Retry.{
  Round, returned, threw, resolved, rejected, RetryOptions, with_retry, default_max_bounded,
  default_base_ms, default_max_backoff_ms,
}
use miradex_client.Retry.Outcomes.{IsBoundedError, outage_resolved, bounded_exhausts}

abbrev options : RetryOptions ErrorCategory
options = record {
  max_bounded = default_max_bounded;
  base_ms = default_base_ms;
  max_backoff_ms = default_max_backoff_ms;
  classify = λ category. category;
}

abbrev throwing : ErrorCategory → Round ℕ ErrorCategory
throwing category = record { aborted = false; answer = λ n. threw category; aborted_asleep = false }

abbrev answering : Round ℕ ErrorCategory
answering = record { aborted = false; answer = λ n. returned 7; aborted_asleep = false }

abbrev outage : List (Round ℕ ErrorCategory)
outage = throwing network ∷ throwing network ∷ []

abbrev limited : List (Round ℕ ErrorCategory)
limited = throwing rate_limit ∷ throwing unknown ∷ throwing rate_limit ∷ throwing rate_limit ∷ []

outage_resolved_example :
    ((with_retry options (outage ++ answering ∷ [])).1 ≡ resolved 7)
    × (length (with_retry options (outage ++ answering ∷ [])).0 ≡ 2)
outage_resolved_example =
    outage_resolved options outage answering 7 []
      (
        (refl, refl, λ n. (network, refl, (refl, refl))),
        ((refl, refl, λ n. (network, refl, (refl, refl))), tt),
      )
      refl (λ n. refl)

bounded_exhausts_example :
    (err : ErrorCategory) × ((with_retry options limited).1 ≡ rejected err)
    × (IsBoundedError options) err
    × (length (with_retry options limited).0 ≡ 3)
bounded_exhausts_example =
    bounded_exhausts options limited
      (
        (refl, refl, λ n. (rate_limit, refl, (refl, refl))),
        (
          (refl, refl, λ n. (unknown, refl, (refl, refl))),
          (
            (refl, refl, λ n. (rate_limit, refl, (refl, refl))),
            ((refl, refl, λ n. (rate_limit, refl, (refl, refl))), tt),
          ),
        ),
      )
      (omega arith)
