-- ===== src/Core/Json/Build.antt =====
-- The JSON that the program builds: `serde_json::json!`, `Value::from`, `Map::insert` and the
-- assignment `value[key] = …`, as parameters, with what they promise to the methods that read.
use ferroq.Prelude.{
  ℕ, String, Bool, true, Option, none, some, List, [], ◌∷◌, ◌≡◌, ◌==◌, eq_String, if◌then◌else◌,
}
use ferroq.Prelude.Int.{ℤ, IsI64}
use ferroq.Core.Json.{JsonValue}

-- The last value under a key in a list of fields, or `found`.
abbrev pub last_field : {V : Type 0} → List (String × V) → String → Option V → Option V
last_field [] key found = found
last_field ((k, v) ∷ fields) key found = last_field fields key (if k == key then some v else found)

-- `float z` is `json!(z as f64)`. `insert` is meant for an object.
pub record JsonBuild {V : Type 0} (J : JsonValue V) : Type 0 where
  pub text : String → V
  pub integer : ℤ → V
  pub unsigned : ℕ → V
  pub float : ℤ → V
  pub array : List V → V
  pub object : List (String × V) → V
  pub insert : V → String → V → V
  pub is_object : V → Bool
  pub as_str-text : (s : String) → J.as_str (text s) ≡ some s
  pub as_i64-integer : (z : ℤ) → IsI64 z → J.as_i64 (integer z) ≡ some z
  pub as_array-array : (vs : List V) → J.as_array (array vs) ≡ some vs
  pub get-object :
      (fields : List (String × V)) (key : String)
      → J.get (object fields) key ≡ last_field fields key none
  pub is_object-object : (fields : List (String × V)) → is_object (object fields) ≡ true
  pub get-insert :
      (v w : V) (k key : String)
      → is_object v ≡ true
      → J.get (insert v k w) key ≡ (if k == key then some w else J.get v key)
  pub is_object-insert :
      (v w : V) (k : String) → is_object v ≡ true → is_object (insert v k w) ≡ true
