-- ===== src/Tests/Tuning.antt =====
-- crates/ferroq-gateway/src/tuning.rs at concrete inputs.
use ferroq.Prelude.{◌≡◌, refl, some}
use ferroq.Middleware.Text.{bytes}
use ferroq.Tuning.{digits_from, clamp, ws_outbound_queue_capacity, ws_api_max_in_flight}

too_small : ws_outbound_queue_capacity (some (bytes "+7")) ≡ 64
unfolding ws_outbound_queue_capacity digits_from clamp
too_small = refl

no_number : ws_api_max_in_flight (some (bytes "+")) ≡ 64
unfolding ws_api_max_in_flight digits_from clamp
no_number = refl
