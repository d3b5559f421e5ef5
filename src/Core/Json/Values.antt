-- ===== src/Core/Json/Values.antt =====
-- crates/ferroq-core/src/message.rs, event.rs: the JSON that the derived `Serialize` gives for a
-- segment and for a sender, and the reading of a field of an object that was built.
use ferroq.Prelude.{
  String, Option, none, some, List, [], ◌∷◌, ◌≡◌, refl, ap, ◌==◌, eq_String, if◌then◌else◌, arith,
}
use ferroq.Prelude.Int.{ℤ, IsI64, IsI32}
use ferroq.Core.Json.{JsonValue, ◌and_then◌, map_or_none, str_at, int_at, id_text}
use ferroq.Core.Json.Build.{JsonBuild, last_field}
use ferroq.Core.Message.{
  MessageSegment, text, image, at, face, reply, voice, video, forward, json, xml, poke, unknown,
}
use ferroq.Core.Event.{MessageType, private, group, Sender}

-- `skip_serializing_if = "Option::is_none"`
unfoldable pub optional : {V : Type 0} → String → Option V → List (String × V) → List (String × V)
optional key none rest = rest
optional key (some v) rest = (key, v) ∷ rest

abbrev pub or_else {ℓ} : {A : Type ℓ} → Option A → Option A → Option A
or_else none o = o
or_else (some a) o = some a

pub or_else-none {ℓ} : {A : Type ℓ} (o : Option A) → or_else o none ≡ o
or_else-none none = refl
or_else-none (some a) = refl

pub last_field-optional :
    {V : Type 0} (k : String) (o : Option V) (rest : List (String × V)) (key : String)
    (found : Option V)
    → last_field (optional k o rest) key found
      ≡ last_field rest key (if k == key then or_else o found else found)
unfolding optional
last_field-optional k none rest key found = ap (last_field rest key) (ground arith)
last_field-optional k (some v) rest key found = refl

-- `#[serde(rename_all = "snake_case")]`
unfoldable pub message_type_text : MessageType → String
message_type_text private = "private"
message_type_text group = "group"

-- `if let Some(v) = o { value[key] = v }`
unfoldable pub set_if : {V : Type 0} {J : JsonValue V} → JsonBuild J → V → String → Option V → V
set_if B value key none = value
set_if B value key (some v) = B.insert value key v

-- A value of type `Option<i32>`, of type `Option<i64>`.
abbrev pub FitsI32 : Option ℤ → Type 0
FitsI32 none = Unit
FitsI32 (some z) = IsI32 z

abbrev pub FitsI64 : Option ℤ → Type 0
FitsI64 none = Unit
FitsI64 (some z) = IsI64 z

module _ {V : Type 0} {J : JsonValue V} (B : JsonBuild J) where
  -- `#[serde(tag = "type", content = "data")]`
  abbrev tagged : String → List (String × V) → V
  tagged name fields = B.object (("type", B.text name) ∷ ("data", B.object fields) ∷ [])

  abbrev file_fields : String → Option String → List (String × V)
  file_fields file url = ("file", B.text file) ∷ optional "url" (map_or_none B.text url) []

  unfoldable pub segment_value : MessageSegment → V
  segment_value (text t) = tagged "text" (("text", B.text t) ∷ [])
  segment_value (image file url) = tagged "image" (file_fields file url)
  segment_value (at qq) = tagged "at" (("qq", B.text qq) ∷ [])
  segment_value (face id) = tagged "face" (("id", B.text id) ∷ [])
  segment_value (reply id) = tagged "reply" (("id", B.text id) ∷ [])
  segment_value (voice file url) = tagged "record" (file_fields file url)
  segment_value (video file url) = tagged "video" (file_fields file url)
  segment_value (forward id) = tagged "forward" (("id", B.text id) ∷ [])
  segment_value (json t) = tagged "json" (("data", B.text t) ∷ [])
  segment_value (xml t) = tagged "xml" (("data", B.text t) ∷ [])
  segment_value (poke poke_type id) =
      tagged "poke" (("type", B.text poke_type) ∷ ("id", B.text id) ∷ [])
  segment_value unknown = B.object (("type", B.text "Unknown") ∷ [])

  unfoldable pub sender_fields : Sender → List (String × V)
  sender_fields s =
      ("user_id", B.integer s.user_id)
      ∷ ("nickname", B.text s.nickname)
      ∷ optional "card" (map_or_none B.text s.card) (
          optional "sex" (map_or_none B.text s.sex) (
            optional "age" (map_or_none B.integer s.age) (
              optional "area" (map_or_none B.text s.area) (
                optional "level" (map_or_none B.text s.level) (
                  optional "role" (map_or_none B.text s.role)
                    (optional "title" (map_or_none B.text s.title) []))))))

  pub as_str-back : (o : Option String) → (map_or_none B.text o and_then J.as_str) ≡ o
  as_str-back none = refl
  as_str-back (some s) = B.as_str-text s

  pub id_text-text : (s : String) → id_text J (B.text s) ≡ s
  id_text-text s = rw (B.as_str-text s, id_text)

  pub str_at-object :
      (fields : List (String × V)) (key : String) (o : Option String)
      → last_field fields key none ≡ map_or_none B.text o
      → str_at J (B.object fields) key ≡ o
  str_at-object fields key none h = rw (B.get-object fields key, h)
  str_at-object fields key (some s) h = rw (B.get-object fields key, h) (B.as_str-text s)

  pub int_at-object :
      (fields : List (String × V)) (key : String) (z : ℤ)
      → last_field fields key none ≡ some (B.integer z)
      → IsI64 z
      → int_at J (B.object fields) key ≡ some z
  int_at-object fields key z h i = rw (B.get-object fields key, h) (B.as_i64-integer z i)

  pub get-set_if :
      (fields : List (String × V)) (k : String) (o : Option V) (key : String)
      → J.get (set_if B (B.object fields) k o) key
        ≡ or_else (if k == key then o else none) (last_field fields key none)
  unfolding set_if
  get-set_if fields k none key = rw (B.get-object fields key) (ground arith)
  get-set_if fields k (some v) key =
      rw
        (
          B.get-insert (B.object fields) v k key (B.is_object-object fields),
          B.get-object fields key,
        )
        (ground arith)

pub ruleset read_back = (as_str-back, id_text-text, last_field-optional, or_else-none)
