-- ===== src/Errors.antt =====
-- src/lib/errors.ts: the categories of errors, and how a thrown value is put into one.
-- A JavaScript value that can be thrown is one of the cases that `classifyError` tells apart.
-- Texts are folded to lower case on the letters of ASCII.
pub mod Codes
pub mod Text
pub mod Api
mod Tests
use miradex_client.Prelude.{
  ℕ, ◌≡◌, Bool, true, false, not, ◌&&◌, ◌||◌, List, [], ◌∷◌, ◌++◌, leb, ◌==◌, str_eq, if◌then◌else◌,
  any,
}
use Prim.Native.String.{String}
use Text.{codes, lower, starts_with, has_word}

pub data ErrorCategory : Type 0 where
  network server rate_limit client_bounded client_fatal : ErrorCategory
  protocol verification cancelled unknown : ErrorCategory

-- `err.cause`: absent (or null), another `Error` with its message, or any other value as a text.
pub data Cause : Type 0 where
  absent : Cause
  of_error : String → Cause
  of_value : String → Cause

-- A thrown value. `miradex` stands for `MiradexError` and its subclasses.
pub data Thrown : Type 0 where
  miradex : ErrorCategory → (name message : String) → Thrown
  type_error : (message : String) → Cause → Thrown
  dom_exception : (name message : String) → Cause → Thrown
  error : (message : String) → Cause → Thrown
  value : (text : String) → Thrown

abbrev pub cause : Cause → String
cause absent = ""
cause (of_error message) = message
cause (of_value text) = text

pub error_message : Thrown → String
error_message (miradex category name message) = message
error_message (type_error message c) = message
error_message (dom_exception name message c) = message
error_message (error message c) = message
error_message (value text) = text

-- The alternatives of the first pattern of `classifyError`, which is anchored at the start.
abbrev pub fetch_failures : List String
fetch_failures = "fetch failed" ∷ "failed to fetch" ∷ "networkerror" ∷ "load failed" ∷ []

-- Those of the second one, which stand between word boundaries.
abbrev pub network_words : List String
network_words =
    "econnrefused" ∷ "econnreset" ∷ "enotfound" ∷ "eai_again" ∷ "etimedout" ∷ "epipe"
    ∷ "ehostunreach" ∷ "enetunreach" ∷ "socket hang up" ∷ "getaddrinfo" ∷ "other side closed"
    ∷ "terminated" ∷ []

pub is_fetch_failure : String → Bool
is_fetch_failure message = any (λ p. starts_with (codes p) (lower (codes message))) fetch_failures

pub names_network_code : String → Cause → Bool
names_network_code message c =
    let merged = lower (codes message ++ b' ' ∷ codes (cause c)) in
    any (λ w. has_word (codes w) merged) network_words

unfoldable pub classify_error : Thrown → ErrorCategory
classify_error (miradex category name message) = category
classify_error (type_error message c) =
    if is_fetch_failure message
    then network
    else if names_network_code message c
    then network
    else unknown
classify_error (dom_exception name message c) =
    if str_eq name "AbortError"
    then network
    else if names_network_code message c
    then network
    else unknown
classify_error (error message c) = if names_network_code message c then network else unknown
classify_error (value text) = unknown

unfoldable pub derive_api_category : ℕ → String → ErrorCategory
derive_api_category status_code code =
    if str_eq code "SCHEMA_MISMATCH"
    then protocol
    else if leb 500 status_code
    then server
    else if status_code == 429
    then rate_limit
    else if status_code == 408 || status_code == 409 || status_code == 422
    then client_bounded
    else if status_code == 404
    then client_bounded
    else if leb 400 status_code
    then client_fatal
    else unknown

-- The constructors of the subclasses.
pub swap_cancelled_error : Thrown
swap_cancelled_error = miradex cancelled "SwapCancelledError" "Swap cancelled by user"

pub network_error : String → Thrown
network_error message = miradex network "NetworkError" message

pub api_error : String → ℕ → String → Thrown
unfolding derive_api_category
api_error message status_code code =
    miradex (derive_api_category status_code code) "ApiError" message

abbrev pub is_fatal : ErrorCategory → Bool
is_fatal cancelled = true
is_fatal protocol = true
is_fatal verification = true
is_fatal client_fatal = true
is_fatal _ = false

abbrev pub is_unbounded : ErrorCategory → Bool
is_unbounded network = true
is_unbounded server = true
is_unbounded _ = false

pub is_retryable : Thrown → Bool
is_retryable err = not (is_fatal (classify_error err))

pub is_unbounded_retry : Thrown → Bool
is_unbounded_retry err = is_unbounded (classify_error err)
