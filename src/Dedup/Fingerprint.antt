-- ===== src/Dedup/Fingerprint.antt =====
-- crates/ferroq-gateway/src/dedup.rs, `fingerprint`, `hash_non_message` and `hash_json_value`.
-- `std::hash::DefaultHasher`, the view of a `serde_json::Value` that Rust's `match` gives, and
-- `DateTime::timestamp` are parameters.
pub mod Message
use ferroq.Prelude.{ℕ, suc, ◌+◌, ◌*◌, ◌^◌, ◌<◌, String, Bool, Option, none, some}
use ferroq.Prelude.Int.{ℤ, as_u64}
use ferroq.Core.External.{External}
use ferroq.Core.Event.{Event, message, notice, request, meta}

-- The six constructors of `serde_json::Value` by which `hash_json_value` branches. A number is
-- what `as_i64`, `as_u64` and `as_f64` (its bits) say of it.
mutual
  pub data Json : Type 0 where
    null : Json
    bool : Bool → Json
    number : Option ℤ → Option ℕ → Option ℕ → Json
    string : String → Json
    array : Items → Json
    object : Fields → Json

  pub data Items : Type 0 where
    nil : Items
    cons : Json → Items → Items

  pub data Fields : Type 0 where
    end : Fields
    field : String → Json → Fields → Fields

-- `arr.len()`, `map.len()`
unfoldable pub count_items : Items → ℕ
count_items nil = 0
count_items (cons v arr) = suc (count_items arr)

unfoldable pub count_fields : Fields → ℕ
count_fields end = 0
count_fields (field k v map) = suc (count_fields map)

-- `std::hash::DefaultHasher`, by the calls of `hash` that the source makes on it.
pub record Hasher : Type 1 where
  pub State : Type 0
  pub new : State
  pub hash_u8 : ℕ → State → State
  pub hash_bool : Bool → State → State
  pub hash_i64 : ℤ → State → State
  pub hash_u64 : ℕ → State → State
  pub hash_usize : ℕ → State → State
  pub hash_str : String → State → State
  pub finish : State → ℕ
  -- `finish` returns a `u64`.
  pub finish-lt : (s : State) → finish s < 2 ^ 64

-- The `if let` chain over a number.
unfoldable pub hash_number : (H : Hasher) → Option ℤ → Option ℕ → Option ℕ → H.State → H.State
hash_number H (some i) u f s = H.hash_i64 i (H.hash_u8 0 s)
hash_number H none (some u) f s = H.hash_u64 u (H.hash_u8 1 s)
hash_number H none none (some f) s = H.hash_u64 f (H.hash_u8 2 s)
hash_number H none none none s = s

unfoldable mutual
  unfolding hash_number

  pub hash_json_value : (H : Hasher) → Json → H.State → H.State
  hash_json_value H null s = H.hash_u8 0 s
  hash_json_value H (bool b) s = H.hash_bool b (H.hash_u8 1 s)
  hash_json_value H (number i u f) s = hash_number H i u f (H.hash_u8 2 s)
  hash_json_value H (string t) s = H.hash_str t (H.hash_u8 3 s)
  hash_json_value H (array arr) s =
      hash_items H arr (H.hash_usize (count_items arr) (H.hash_u8 4 s))
  hash_json_value H (object map) s =
      hash_fields H map (H.hash_usize (count_fields map) (H.hash_u8 5 s))

  pub hash_items : (H : Hasher) → Items → H.State → H.State
  hash_items H nil s = s
  hash_items H (cons v arr) s = hash_items H arr (hash_json_value H v s)

  pub hash_fields : (H : Hasher) → Fields → H.State → H.State
  hash_fields H end s = s
  hash_fields H (field k v map) s = hash_fields H map (hash_json_value H v (H.hash_str k s))

-- `((hi as u128) << 64) | (lo as u128)`: the low half is below 2^64, so the bits are disjoint.
abbrev pub join_halves : ℕ → ℕ → ℕ
join_halves hi lo = hi * 2 ^ 64 + lo

unfoldable pub hash_non_message : Hasher → ℤ → String → String → ℤ → Json → ℕ
unfolding hash_json_value
hash_non_message H self_id event_type sub_type timestamp extra =
    let named = H.hash_str sub_type (H.hash_str event_type (H.hash_i64 self_id H.new)) in
    let lo = H.finish (hash_json_value H extra (H.hash_i64 timestamp named)) in
    let timed = H.hash_i64 timestamp (H.hash_i64 self_id (H.hash_u64 lo H.new)) in
    let hi = H.finish (hash_json_value H extra timed) in join_halves hi lo

module _ {F : External} (H : Hasher) (view : F.Value → Json) (timestamp : F.DateTime → ℤ) where
  unfoldable pub fingerprint : Event F → ℕ
  unfolding hash_non_message as_u64
  fingerprint (message msg) = join_halves (as_u64 msg.self_id) (as_u64 msg.message_id)
  fingerprint (notice n) =
      hash_non_message H n.self_id n.notice_type n.sub_type (timestamp n.time) (view n.extra)
  fingerprint (request r) =
      hash_non_message H r.self_id r.request_type r.sub_type (timestamp r.time) (view r.extra)
  fingerprint (meta m) =
      hash_non_message H m.self_id m.meta_event_type m.sub_type (timestamp m.time) (view m.extra)
