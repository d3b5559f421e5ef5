-- ===== src/Tuning.antt =====
-- crates/ferroq-gateway/src/tuning.rs: the two tuning values, from the environment. The text of a
-- variable is the list of its bytes; the `OnceLock`s only keep the first reading.
pub mod Range
use ferroq.Prelude.{
  ℕ, ◌+◌, ◌-◌, ◌*◌, ◌^◌, ltb, leb, Bool, true, false, ◌&&◌, Option, none, some, List, [], ◌∷◌,
  if◌then◌else◌,
}
use ferroq.Middleware.Text.{Text}

-- The digits of `raw.parse::<usize>()`, from the value read so far, on a 64-bit machine.
unfoldable pub digits_from : ℕ → Text → Option ℕ
digits_from n [] = some n
digits_from n (c ∷ text) =
    let m = n * 10 + (c - b'0') in
    let rest = digits_from m text in
    if leb b'0' c && leb c b'9' && ltb m (2 ^ 64) then rest else none

-- A text without digits is refused, and so is a lone plus sign.
abbrev some_digits : Text → Option ℕ
unfolding digits_from
some_digits [] = none
some_digits (c ∷ text) = digits_from 0 (c ∷ text)

abbrev without_plus : Text → Text
without_plus [] = []
without_plus (c ∷ text) = if leb b'+' c && leb c b'+' then text else c ∷ text

unfoldable pub parse_usize : Text → Option ℕ
unfolding some_digits
parse_usize raw = some_digits (without_plus raw)

-- `value.clamp(min, max)`
unfoldable pub clamp : ℕ → ℕ → ℕ → ℕ
clamp value low high = if ltb value low then low else if ltb high value then high else value

abbrev pub accept : ℕ → ℕ → ℕ → Option ℕ → ℕ
unfolding clamp
accept default low high none = default
accept default low high (some value) =
    if leb low value && leb value high then value else clamp value low high

-- `none` is a variable that is not set.
unfoldable pub parse_env_usize : Option Text → ℕ → ℕ → ℕ → ℕ
unfolding accept parse_usize
parse_env_usize none default low high = default
parse_env_usize (some raw) default low high = accept default low high (parse_usize raw)

unfoldable pub ws_outbound_queue_capacity : Option Text → ℕ
unfolding parse_env_usize
ws_outbound_queue_capacity var = parse_env_usize var 1024 64 65_536

unfoldable pub ws_api_max_in_flight : Option Text → ℕ
unfolding parse_env_usize
ws_api_max_in_flight var = parse_env_usize var 64 1 8_192
