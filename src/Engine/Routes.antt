-- ===== src/Engine/Routes.antt =====
-- Where src/engine/flows/error-routing.ts leads an error to.
use Prim.Native.String.{String}
use miradex_client.Prelude.{◌≡◌, ◌↔◌, Bool, true, false, not, ◌||◌, Option, none, some, arith}
use miradex_client.Errors.Codes.{
  Failure, verification_error, protocol_error, swap_cancelled, plain_error,
}
use miradex_client.Status.{is_pre_funding}
use miradex_client.Engine.{route_cancelled, route_stalled, route_error}

abbrev pub is_verification : Failure → Bool
is_verification (verification_error code) = true
is_verification _ = false

abbrev pub is_cancellation : Failure → Bool
is_cancellation swap_cancelled = true
is_cancellation _ = false

-- The last seen status is one that comes after the funding.
abbrev pub is_funded : Option String → Bool
is_funded none = false
is_funded (some status) = not (is_pre_funding status)

-- An error stalls a swap, to be resumed, just if the signal is not aborted, the error is neither a
-- cancellation nor a failed verification, and the last seen status comes after the funding. A
-- failed verification always fails the swap, unless the signal is aborted.
pub route_error_lem :
    (e : Failure) (signal_aborted : Bool) (last_seen_status : Option String)
    → ((route_error e signal_aborted last_seen_status ≡ route_stalled) ↔ (
        (signal_aborted
          || is_cancellation e
          || is_verification e
          || not (is_funded last_seen_status))
        ≡ false))
      × ((route_error e signal_aborted last_seen_status ≡ route_cancelled)
          ↔ ((signal_aborted || is_cancellation e) ≡ true))
unfolding route_error
route_error_lem e true s = (ground arith, ground arith)
route_error_lem swap_cancelled false s = (ground arith, ground arith)
route_error_lem (verification_error code) false s = (ground arith, ground arith)
route_error_lem (protocol_error code) false none = (ground arith, ground arith)
route_error_lem (protocol_error code) false (some s) = (ground arith, ground arith)
route_error_lem plain_error false none = (ground arith, ground arith)
route_error_lem plain_error false (some s) = (ground arith, ground arith)
