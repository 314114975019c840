-- ===== src/Errors/Api.antt =====
-- Which answers of the server src/lib/errors.ts lets be retried.
use Prim.Native.String.{String}
use miradex_client.Prelude.{ℕ, ◌≡◌, Bool, not, ◌&&◌, ◌||◌, arith, ltb, leb, ◌==◌, str_eq}
use miradex_client.Errors.{
  classify_error, derive_api_category, api_error, is_retryable, is_unbounded_retry,
}

-- An answer whose request may be repeated by itself.
abbrev pub is_passing : ℕ → Bool
is_passing status_code =
    leb 500 status_code
    || ltb status_code 400
    || status_code == 404
    || status_code == 408
    || status_code == 409
    || status_code == 422
    || status_code == 429

-- An error of the API is retried exactly if its code is not SCHEMA_MISMATCH and its status is one
-- of 404, 408, 409, 422 and 429, below 400, or at least 500; and without bound exactly if its code
-- is not SCHEMA_MISMATCH and its status is at least 500.
pub api_error_retries :
    (message : String) (status_code : ℕ) (code : String)
    → (is_retryable (api_error message status_code code)
        ≡ (not (str_eq code "SCHEMA_MISMATCH") && is_passing status_code))
      × (is_unbounded_retry (api_error message status_code code)
          ≡ (not (str_eq code "SCHEMA_MISMATCH") && leb 500 status_code))
unfolding is_retryable is_unbounded_retry api_error classify_error derive_api_category
api_error_retries message status_code code = (ground arith, ground arith)
