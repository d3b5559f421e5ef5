-- ===== src/Lagrange/Backoff.antt =====
-- crates/ferroq-gateway/src/adapter/lagrange.rs: the waits of the monitor.
use ferroq.Prelude.{ℕ, zero, suc, ◌*◌, ◌^◌, ◌≤◌, ◌<◌, ◌≡◌, ap, ◌∙◌, min, arith}
use ferroq.Lagrange.{backoff}

power-gt : (n : ℕ) → n < 2 ^ n
power-gt zero = omega arith
power-gt (suc n) = omega (arith, power-gt n)

power-suc : (n : ℕ) → 2 ^ suc n ≡ 2 * 2 ^ n
power-suc n = omega arith

swap : (b x : ℕ) → b * (2 * x) ≡ 2 * (b * x)
swap b x = omega arith

double : (b n : ℕ) → b * 2 ^ suc n ≡ 2 * (b * 2 ^ n)
double b n = ap (λ x. b * x) (power-suc n) ∙ swap b (2 ^ n)

times-ge : (b x : ℕ) → 1 ≤ b → x ≤ b * x
times-ge zero x h = absurd (omega arith)
times-ge (suc b) x h = omega arith

-- With an interval of at least a second, the wait before an attempt doubles up to the largest
-- interval, is never longer, and is the largest interval from some attempt on, the one of that
-- number at the latest.
pub backoff_lem :
    (base max_interval attempt : ℕ)
    → 1 ≤ base
    → (backoff base max_interval attempt ≤ max_interval)
      × (backoff base max_interval (suc attempt)
          ≡ min (2 * backoff base max_interval attempt) max_interval)
      × (max_interval ≤ attempt → backoff base max_interval attempt ≡ max_interval)
unfolding backoff
backoff_lem base max_interval attempt h = (
  omega arith,
  omega (arith, double base attempt),
  λ late. omega (arith, power-gt attempt, times-ge base (2 ^ attempt) h, late),
)
