-- ===== src/OnebotV11/Output.antt =====
-- crates/ferroq-gateway/src/onebot_v11.rs: `event_to_json`, from the event to its JSON. The
-- seconds of a time (`timestamp`) are a parameter.
pub mod RoundTrip
use ferroq.Prelude.{String, Option, none, some, List, [], ◌∷◌, map, if◌then◌else◌}
use ferroq.Prelude.Int.{ℤ}
use ferroq.Core.External.{External}
use ferroq.Core.Json.{JsonValue, map_or_none}
use ferroq.Core.Json.Build.{JsonBuild}
use ferroq.Core.Json.Values.{segment_value, message_type_text, sender_fields, set_if}
use ferroq.Core.Event.{Event, message, notice, request, meta, MessageEvent}

-- The three insertions into `extra`, if it is an object; `seconds` is the time.
unfoldable pub stamp : {V : Type 0} {J : JsonValue V} → JsonBuild J → V → String → ℤ → ℤ → V
stamp B extra post_type seconds self_id =
    if B.is_object extra
    then B.insert
        (B.insert (B.insert extra "post_type" (B.text post_type)) "time" (B.integer seconds))
        "self_id" (B.integer self_id)
    else extra

module _ {F : External} {J : JsonValue F.Value} (B : JsonBuild J) (timestamp : F.DateTime → ℤ) where
  abbrev pub message_fields : MessageEvent F → List (String × F.Value)
  unfolding segment_value message_type_text sender_fields
  message_fields msg =
      ("post_type", B.text "message")
      ∷ ("message_type", B.text (message_type_text msg.message_type))
      ∷ ("sub_type", B.text msg.sub_type)
      ∷ ("time", B.integer (timestamp msg.time))
      ∷ ("self_id", B.integer msg.self_id)
      ∷ ("message_id", B.integer msg.message_id)
      ∷ ("user_id", B.integer msg.user_id)
      ∷ ("message", B.array (map (segment_value B) msg.message))
      ∷ ("raw_message", B.text msg.raw_message)
      ∷ ("font", B.integer msg.font)
      ∷ ("sender", B.object (sender_fields B msg.sender))
      ∷ []

  unfoldable pub message_to_json : MessageEvent F → F.Value
  unfolding message_fields
  message_to_json msg =
      set_if B (B.object (message_fields msg)) "group_id" (map_or_none B.integer msg.group_id)

  unfoldable pub event_to_json : Event F → F.Value
  unfolding message_to_json stamp
  event_to_json (message msg) = message_to_json msg
  event_to_json (notice evt) = stamp B evt.extra "notice" (timestamp evt.time) evt.self_id
  event_to_json (request evt) = stamp B evt.extra "request" (timestamp evt.time) evt.self_id
  event_to_json (meta evt) = stamp B evt.extra "meta_event" (timestamp evt.time) evt.self_id
