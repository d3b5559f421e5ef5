-- ===== src/Tuning/Range.antt =====
-- crates/ferroq-gateway/src/tuning.rs: what an operator may bring about.
use ferroq.Prelude.{
  ℕ, ◌+◌, ◌-◌, ◌*◌, ◌^◌, ◌≤◌, ◌<◌, ◌≡◌, refl, ap, ◌∙◌, Option, none, some, [], ◌∷◌, arith, All,
  Option-cases, inl, inr,
}
use ferroq.Middleware.Text.{Text}
use ferroq.Tuning.{
  accept, digits_from, parse_usize, clamp, parse_env_usize, ws_outbound_queue_capacity,
  ws_api_max_in_flight,
}

-- The number that a text of decimal digits denotes.
abbrev pub value_from : ℕ → Text → ℕ
value_from n [] = n
value_from n (c ∷ text) = value_from (n * 10 + (c - b'0')) text

abbrev pub IsDigit : ℕ → Type 0
IsDigit c = (b'0' ≤ c) × (c ≤ b'9')

value_from-ge : (n : ℕ) (text : Text) → n ≤ value_from n text
value_from-ge n [] = omega arith
value_from-ge n (c ∷ text) = omega (arith, value_from-ge (n * 10 + (c - b'0')) text)

digits_from-value :
    (n : ℕ) (text : Text)
    → All IsDigit text
    → value_from n text < 2 ^ 64
    → digits_from n text ≡ some (value_from n text)
unfolding digits_from
digits_from-value n [] d lt = refl
digits_from-value n (c ∷ text) d lt = ground (
  arith,
  digits_from-value (n * 10 + (c - b'0')) text d.1 lt,
  value_from-ge (n * 10 + (c - b'0')) text,
)

env_in_range :
    (var : Option Text) (default low high : ℕ)
    → low ≤ default
    → default ≤ high
    → (low ≤ parse_env_usize var default low high) × (parse_env_usize var default low high ≤ high)
unfolding parse_env_usize clamp
env_in_range none default low high lo hi = (lo, hi)
env_in_range (some raw) default low high lo hi = elim (Option-cases (parse_usize raw)) [
  | inl e ↦ rw e (lo, hi)
  | inr (v, e) ↦ rw e (ground arith)
]

-- Whatever the environment holds, the queue has between 64 and 65536 places and between 1 and 8192
-- calls may be in flight.
pub ws_limits_lem :
    (queue calls : Option Text)
    → ((64 ≤ ws_outbound_queue_capacity queue) × (ws_outbound_queue_capacity queue ≤ 65_536))
      × ((1 ≤ ws_api_max_in_flight calls) × (ws_api_max_in_flight calls ≤ 8_192))
unfolding ws_outbound_queue_capacity ws_api_max_in_flight
ws_limits_lem queue calls = (
  env_in_range queue 1024 64 65_536 (omega arith) (omega arith),
  env_in_range calls 64 1 8_192 (omega arith) (omega arith),
)

parse_usize-digits :
    (c : ℕ) (text : Text) → IsDigit c → parse_usize (c ∷ text) ≡ digits_from 0 (c ∷ text)
unfolding parse_usize
parse_usize-digits c text d = ground arith

accepted : (default low high v : ℕ) → low ≤ v → v ≤ high → accept default low high (some v) ≡ v
unfolding accept
accepted default low high v lo hi = ground arith

-- A number within the range that the operator writes in decimal is taken as it stands.
pub parse_env_usize-value :
    (c : ℕ) (text : Text) (default low high : ℕ)
    → All IsDigit (c ∷ text)
    → high < 2 ^ 64
    → low ≤ value_from 0 (c ∷ text)
    → value_from 0 (c ∷ text) ≤ high
    → parse_env_usize (some (c ∷ text)) default low high ≡ value_from 0 (c ∷ text)
unfolding parse_env_usize
parse_env_usize-value c text default low high d top lo hi =
    ap (accept default low high)
      (parse_usize-digits c text d.0 ∙ digits_from-value 0 (c ∷ text) d (omega arith))
    ∙ accepted default low high (value_from 0 (c ∷ text)) lo hi
