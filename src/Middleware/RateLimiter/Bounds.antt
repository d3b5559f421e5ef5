-- ===== src/Middleware/RateLimiter/Bounds.antt =====
-- crates/ferroq-gateway/src/middleware.rs: how many requests a `RateLimiter` lets through.
use ferroq.Prelude.{
  ℕ, zero, suc, ◌+◌, ◌-◌, ◌*◌, ◌^◌, ◌≤◌, ◌≡◌, refl, min, List, [], ◌∷◌, ◌++◌, arith, ltb,
  Bool-cases, inl, inr, All, ◌∙◌,
}
use ferroq.Middleware.RateLimiter.{
  RateLimiter, refill, try_acquire, update_config, Call, acquire, tick, update, run,
}

abbrev pub ticks : List Call → ℕ
ticks [] = 0
ticks (tick ∷ calls) = suc (ticks calls)
ticks (acquire ∷ calls) = ticks calls
ticks (update _ _ ∷ calls) = ticks calls

abbrev pub NoUpdate : List Call → Type 0
NoUpdate = All (λ c. elim c [ update _ _ ↦ ⊥ | _ ↦ Unit {0} ])

run-le :
    (b r t : ℕ) (calls : List Call)
    → t ≤ b
    → NoUpdate calls
    → (run (record { tokens = t; burst = b; rps = r }) calls).0
        + (run (record { tokens = t; burst = b; rps = r }) calls).1.tokens
      ≤ t + ticks calls * min r b
unfolding run
run-le b r t [] h n = omega arith
run-le b r zero (acquire ∷ calls) h n = run-le b r zero calls h n.1
run-le b r (suc t) (acquire ∷ calls) h n = ground (arith, run-le b r t calls (omega arith) n.1)
run-le b r t (tick ∷ calls) h n =
    grind (arith, run-le b r (min (min (t + r) (2 ^ 32 - 1)) b) calls (omega arith) n.1)
run-le b r t (update _ _ ∷ calls) h n = absurd n.0

-- The bound of the token bucket: while the settings stay as they are, and the bucket holds no
-- more than `burst`, the requests let through in any sequence of calls are at most the tokens at
-- its start and, for each tick of the refill, `rps` or `burst`, whichever is less.
pub run_granted-le :
    (rl : RateLimiter) (calls : List Call)
    → rl.tokens ≤ rl.burst
    → NoUpdate calls
    → (run rl calls).0 ≤ rl.tokens + ticks calls * min rl.rps rl.burst
run_granted-le rl calls h n = omega (arith, run-le rl.burst rl.rps rl.tokens calls h n)

abbrev pub acquire_times : ℕ → List Call
acquire_times zero = []
acquire_times (suc n) = acquire ∷ acquire_times n

-- Between two ticks nothing is refused too early: of `n` requests in a row exactly as many are
-- let through as there are tokens, and the others leave the bucket empty.
pub run-acquire_times :
    (b r t n : ℕ)
    → run (record { tokens = t; burst = b; rps = r }) (acquire_times n)
      ≡ (min n t, record { tokens = t - n; burst = b; rps = r })
unfolding run
run-acquire_times b r t zero = ground arith
run-acquire_times b r zero (suc n) = ground (arith, run-acquire_times b r zero n)
run-acquire_times b r (suc t) (suc n) = ground (arith, run-acquire_times b r t n)

-- No setting of the bucket size in the calls is above `m`.
abbrev pub BurstsUpTo : ℕ → List Call → Type 0
BurstsUpTo m = All (λ c. elim c [ update _ burst ↦ burst ≤ m | _ ↦ Unit {0} ])

-- Hot reloads included: the bucket never holds more than the largest `burst` it was ever given.
pub run_tokens-le :
    (m : ℕ) (rl : RateLimiter) (calls : List Call)
    → rl.tokens ≤ m
    → rl.burst ≤ m
    → BurstsUpTo m calls
    → (run rl calls).1.tokens ≤ m
unfolding run
run_tokens-le m rl [] ht hb u = ht
run_tokens-le m rl (acquire ∷ calls) ht hb u = elim (Bool-cases (ltb 0 rl.tokens)) [
  | inl e ↦ rw e (run_tokens-le m (record rl { tokens = rl.tokens - 1 }) calls (omega arith) hb u.1)
  | inr e ↦ rw e (run_tokens-le m rl calls ht hb u.1)
]
run_tokens-le m rl (tick ∷ calls) ht hb u = run_tokens-le m (refill rl) calls (omega arith) hb u.1
run_tokens-le m rl (update r b ∷ calls) ht hb u =
    run_tokens-le m (update_config rl r b) calls ht u.0 u.1

run-append :
    (rl : RateLimiter) (calls later : List Call)
    → (run rl (calls ++ later)).1 ≡ (run (run rl calls).1 later).1
unfolding run
run-append rl [] later = refl
run-append rl (acquire ∷ calls) later = run-append (try_acquire rl).1 calls later
run-append rl (tick ∷ calls) later = run-append (refill rl) calls later
run-append rl (update r b ∷ calls) later = run-append (update_config rl r b) calls later

run-burst :
    (rl : RateLimiter) (calls : List Call) → NoUpdate calls → (run rl calls).1.burst ≡ rl.burst
unfolding run
run-burst rl [] n = refl
run-burst rl (acquire ∷ calls) n = run-burst (try_acquire rl).1 calls n.1 ∙ ground arith
run-burst rl (tick ∷ calls) n = run-burst (refill rl) calls n.1
run-burst rl (update _ _ ∷ calls) n = absurd n.0

BurstsUpTo-of_NoUpdate : (m : ℕ) (calls : List Call) → NoUpdate calls → BurstsUpTo m calls
BurstsUpTo-of_NoUpdate m [] n = n
BurstsUpTo-of_NoUpdate m (acquire ∷ calls) n = (tt, BurstsUpTo-of_NoUpdate m calls n.1)
BurstsUpTo-of_NoUpdate m (tick ∷ calls) n = (tt, BurstsUpTo-of_NoUpdate m calls n.1)
BurstsUpTo-of_NoUpdate m (update _ _ ∷ calls) n = absurd n.0

-- A smaller `burst` set by a reload holds from the next tick on, whatever is called until then
-- and afterwards, up to the next reload.
pub run-update_tokens-le :
    (rl : RateLimiter) (rps burst : ℕ) (calls later : List Call)
    → NoUpdate calls
    → NoUpdate later
    → (run rl (update rps burst ∷ calls ++ tick ∷ later)).1.tokens ≤ burst
unfolding run update_config refill
run-update_tokens-le rl rps burst calls later n m =
    let mid = (run (update_config rl rps burst) calls).1 in
    let same : mid.burst ≡ burst = run-burst (update_config rl rps burst) calls n in
    rw (run-append (update_config rl rps burst) calls (tick ∷ later)) (
      run_tokens-le burst (refill mid) later (omega arith) (omega arith)
        (BurstsUpTo-of_NoUpdate burst later m))
