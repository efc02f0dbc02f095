-- ===== src/Status/Agreement.antt =====
-- The two frameworks' tables of statuses compared.
use dawnchat_api.Prelude.{◌≡◌, ◌↔◌, arith}
use dawnchat_api.Errors.{ErrorType}
use dawnchat_api.Status.{Status, rocket_status, axum_status}

-- Every error has the same HTTP status in the Rocket services as in the Axum services.
pub rocket-eq-axum : (e : ErrorType) → rocket_status e ≡ axum_status e
unfolding rocket_status axum_status
rocket-eq-axum e = ground arith

-- `NoEffect` is answered by 200 OK, and no other error is.
pub ok_iff_no_effect : (e : ErrorType) → (rocket_status e ≡ Status.ok) ↔ (e ≡ ErrorType.no_effect)
unfolding rocket_status
ok_iff_no_effect e = ground arith
