-- ===== src/Middleware/RateLimiter.antt =====
-- crates/ferroq-gateway/src/middleware.rs, `RateLimiter`: a token bucket of three `AtomicU32`s.
-- A run is a sequence of calls and of ticks of the refill task. `try_acquire` is one atomic update; a
-- tick with its two loads, and the two stores of `update_config`, are taken as one step each.
pub mod Bounds
use ferroq.Prelude.{
  ℕ, suc, ◌+◌, ◌-◌, ◌^◌, min, ltb, Bool, true, false, List, [], ◌∷◌, if◌then◌else◌,
}

pub record RateLimiter : Type 0 where
  pub tokens : ℕ
  pub burst : ℕ
  pub rps : ℕ

unfoldable pub new : ℕ → RateLimiter
new burst = record { tokens = burst; burst = burst; rps = 0 }

-- `saturating_add` of `u32`
abbrev pub saturating_add : ℕ → ℕ → ℕ
saturating_add a b = min (a + b) (2 ^ 32 - 1)

-- What `start_refill` does before its task runs.
unfoldable pub start_refill : RateLimiter → ℕ → RateLimiter
start_refill rl rps = record rl { rps = rps }

-- One round of the refill task's loop.
unfoldable pub refill : RateLimiter → RateLimiter
refill rl = record rl { tokens = min (saturating_add rl.tokens rl.rps) rl.burst }

unfoldable pub try_acquire : RateLimiter → Bool × RateLimiter
try_acquire rl =
    if ltb 0 rl.tokens then (true, record rl { tokens = rl.tokens - 1 }) else (false, rl)

unfoldable pub update_config : RateLimiter → ℕ → ℕ → RateLimiter
update_config rl rps burst = record rl { rps = rps; burst = burst }

-- What `with_rate_limit` answers: the handler's reply, or 429 with its header.
pub data Reply (R : Type 0) : Type 0 where
  from_next : R → Reply R
  too_many_requests : ℕ → Reply R

unfoldable pub with_rate_limit : {Q R : Type 0} → RateLimiter → (Q → R) → Q → Reply R × RateLimiter
unfolding try_acquire
with_rate_limit rl next request =
    let (allowed, rl') = try_acquire rl in
    (if allowed then from_next (next request) else too_many_requests 1, rl')

-- What may reach the limiter.
pub data Call : Type 0 where
  acquire : Call
  tick : Call
  update : ℕ → ℕ → Call

-- The number of requests let through, and the limiter afterwards.
unfoldable pub run : RateLimiter → List Call → ℕ × RateLimiter
unfolding try_acquire refill update_config
run rl [] = (0, rl)
run rl (acquire ∷ calls) =
    let (allowed, rl') = try_acquire rl in
    let (granted, rl'') = run rl' calls in (if allowed then suc granted else granted, rl'')
run rl (tick ∷ calls) = run (refill rl) calls
run rl (update rps burst ∷ calls) = run (update_config rl rps burst) calls
