-- ===== src/Tests/Middleware.antt =====
-- crates/ferroq-gateway/src/middleware.rs at concrete inputs.
use ferroq.Prelude.{◌≡◌, refl, ◌+◌, ◌*◌, ◌≤◌, min, ◌↔◌, ◌⊎◌, none, some, List, [], ◌∷◌, arith}
use ferroq.Middleware.Text.{bytes}
use ferroq.Middleware.Auth.{Request, run_next, unauthorized, check_token}
use ferroq.Middleware.Auth.Spec.{HeaderHas, QueryHas, check_token-run_next_iff}
use ferroq.Middleware.RateLimiter.{RateLimiter, Call, acquire, tick, run}
use ferroq.Middleware.RateLimiter.Bounds.{ticks, run_granted-le}

abbrev by_query : Request
by_query = record { header_value = none; query = some (bytes "a=1&access_token=key") }

by_query_passes : check_token (bytes "key") by_query ≡ run_next
unfolding check_token
by_query_passes = refl

others_fail : check_token (bytes "keys") by_query ≡ unauthorized
unfolding check_token
others_fail = refl

check_token-run_next_iff_example : (check_token (bytes "key") by_query ≡ run_next) ↔ (
    (bytes "key" ≡ [])
    ⊎ (HeaderHas (bytes "key") by_query.header_value ⊎ QueryHas (bytes "key") by_query.query))
check_token-run_next_iff_example = check_token-run_next_iff (bytes "key") by_query

abbrev limiter : RateLimiter
limiter = record { tokens = 2; burst = 3; rps = 1 }

abbrev calls : List Call
calls = acquire ∷ acquire ∷ acquire ∷ tick ∷ acquire ∷ []

run_granted-le_example : (run limiter calls).0 ≤ 2 + ticks calls * min 1 3
run_granted-le_example = run_granted-le limiter calls (omega arith) (ground arith)
