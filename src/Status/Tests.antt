-- ===== src/Status/Tests.antt =====
-- The tables of statuses at one error.
use dawnchat_api.Prelude.{◌≡◌}
use dawnchat_api.Errors.{ErrorType}
use dawnchat_api.Status.{rocket_status, axum_status}
use dawnchat_api.Status.Agreement.{rocket-eq-axum}

rocket-eq-axum_example :
    rocket_status (ErrorType.in_slowmode 5) ≡ axum_status (ErrorType.in_slowmode 5)
rocket-eq-axum_example = rocket-eq-axum (ErrorType.in_slowmode 5)
