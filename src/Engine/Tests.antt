-- ===== src/Engine/Tests.antt =====
-- The stages and the routes of src/engine on sample values.
use miradex_client.Prelude.{◌≡◌, ◌↔◌, true, false, not, ◌||◌, some}
use miradex_client.Errors.Codes.{protocol_error, e_presigs_wedged}
use miradex_client.Engine.{route_cancelled, route_stalled, route_error}
use miradex_client.Engine.Routes.{is_verification, is_cancellation, is_funded, route_error_lem}

route_error_lem_example :
    ((route_error (protocol_error e_presigs_wedged) false (some "deposited") ≡ route_stalled) ↔ (
      (false
        || is_cancellation (protocol_error e_presigs_wedged)
        || is_verification (protocol_error e_presigs_wedged)
        || not (is_funded (some "deposited")))
      ≡ false))
    × ((route_error (protocol_error e_presigs_wedged) false (some "deposited") ≡ route_cancelled)
        ↔ ((false || is_cancellation (protocol_error e_presigs_wedged)) ≡ true))
route_error_lem_example = route_error_lem (protocol_error e_presigs_wedged) false (some "deposited")
