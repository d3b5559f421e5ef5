-- ===== src/Core/Json.antt =====
-- The methods of `serde_json::Value` that the program calls, as parameters, and the chains of
-- options in which it calls them.
pub mod Build
pub mod Values
use ferroq.Prelude.{ℕ, String, Option, none, some, List, [], ◌∷◌}
use ferroq.Prelude.Int.{ℤ}

-- `Value::get`, `as_i64`, `as_u64`, `as_str`, `as_array`, the printed number of a `Value::Number`, and `Null`.
pub record JsonValue (V : Type 0) : Type 0 where
  pub get : V → String → Option V
  pub as_i64 : V → Option ℤ
  pub as_u64 : V → Option ℕ
  pub as_str : V → Option String
  pub as_array : V → Option (List V)
  pub number_text : V → Option String
  pub null : V

-- `Option::and_then`, `unwrap_or`, `map`
infixl 15 ◌and_then◌
abbrev pub ◌and_then◌ {ℓ κ} : {A : Type ℓ} {B : Type κ} → Option A → (A → Option B) → Option B
none and_then f = none
some a and_then f = f a

infixl 15 ◌unwrap_or◌
abbrev pub ◌unwrap_or◌ {ℓ} : {A : Type ℓ} → Option A → A → A
none unwrap_or b = b
some a unwrap_or b = a

abbrev pub map_or_none {ℓ κ} : {A : Type ℓ} {B : Type κ} → (A → B) → Option A → Option B
map_or_none f none = none
map_or_none f (some a) = some (f a)

-- `filter_map`
abbrev pub filter_map {ℓ κ} : {A : Type ℓ} {B : Type κ} → (A → Option B) → List A → List B
filter_map f [] = []
filter_map f (a ∷ xs) = elim (f a) [ none ↦ filter_map f xs | some b ↦ b ∷ filter_map f xs ]

module _ {V : Type 0} (J : JsonValue V) where
  abbrev pub str_at : V → String → Option String
  str_at raw key = J.get raw key and_then J.as_str

  abbrev pub int_at : V → String → Option ℤ
  int_at raw key = J.get raw key and_then J.as_i64

  -- The `match` on the value of an id: a string, a number, or anything else.
  abbrev pub id_text : V → String
  id_text v = elim (J.as_str v) [ some s ↦ s | none ↦ J.number_text v unwrap_or "0" ]

  abbrev pub id_at : V → String → String
  id_at v key = map_or_none id_text (J.get v key) unwrap_or ""

  -- The text of an id in an answer: a number, a string, or the text `to_text` of another value.
  abbrev pub any_text : (V → String) → V → String
  any_text to_text v = elim (J.number_text v) [ some n ↦ n | none ↦ J.as_str v unwrap_or to_text v ]
