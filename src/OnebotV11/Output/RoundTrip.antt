-- ===== src/OnebotV11/Output/RoundTrip.antt =====
-- crates/ferroq-gateway/src/onebot_v11.rs: what `parse_event` makes of the JSON of `event_to_json`.
use ferroq.Prelude.{
  String, true, Option, none, some, List, [], ◌∷◌, map, ◌≡◌, refl, ap, ◌==◌, eq_String,
  if◌then◌else◌, arith,
}
use ferroq.Prelude.Int.{ℤ, pos, negsuc, IsI64, IsI32, as_i32, as_i32_fits}
use ferroq.Core.External.{External}
use ferroq.Core.Json.{JsonValue, ◌and_then◌, ◌unwrap_or◌, map_or_none, filter_map, str_at}
use ferroq.Core.Json.Build.{JsonBuild}
use ferroq.Core.Json.Values.{
  segment_value, message_type_text, sender_fields, read_back, get-set_if, FitsI32, FitsI64,
}
use ferroq.Core.Message.{
  MessageSegment, text, image, at, face, reply, voice, video, forward, json, xml, poke, unknown,
}
use ferroq.Core.Event.{
  Event, message, notice, request, meta, MessageEvent, MessageType, private, group, Sender,
}
use ferroq.Core.Error.{ok}
use ferroq.Core.Event
use ferroq.OnebotV11.{
  parse_segment, parse_message_segments, parse_sender, message_type_of, parse_event,
}
use ferroq.OnebotV11.Output.{message_to_json, event_to_json, stamp}

-- What is left of a segment: all but an unknown one.
abbrev pub known : MessageSegment → Option MessageSegment
known unknown = none
known seg = some seg

IsI32→IsI64 : (z : ℤ) → IsI32 z → IsI64 z
IsI32→IsI64 (pos n) h = omega arith
IsI32→IsI64 (negsuc n) h = omega arith

message_type_of-text : (m : MessageType) → message_type_of (message_type_text m) ≡ m
unfolding message_type_text
message_type_of-text private = refl
message_type_of-text group = refl

filter_map-map :
    {A B C : Type 0} (f : B → Option C) (g : A → B) (h : A → Option C)
    → ((a : A) → f (g a) ≡ h a)
    → (xs : List A) → filter_map f (map g xs) ≡ filter_map h xs
filter_map-map f g h e [] = refl
filter_map-map f g h e (x ∷ xs) = ground (arith, e x, filter_map-map f g h e xs)

module _ {V : Type 0} {J : JsonValue V} (B : JsonBuild J) where
  parse_segment-value : (seg : MessageSegment) → parse_segment J (segment_value B seg) ≡ known seg
  unfolding parse_segment segment_value
  parse_segment-value (text t) = simp (B.get-object, B.as_str-text)
  parse_segment-value (image file url) = simp (B.get-object, B.as_str-text, read_back)
  parse_segment-value (at qq) = simp (B.get-object, B.as_str-text, read_back)
  parse_segment-value (face id) = simp (B.get-object, B.as_str-text, read_back)
  parse_segment-value (reply id) = simp (B.get-object, B.as_str-text, read_back)
  parse_segment-value (voice file url) = simp (B.get-object, B.as_str-text, read_back)
  parse_segment-value (video file url) = simp (B.get-object, B.as_str-text, read_back)
  parse_segment-value (forward id) = simp (B.get-object, B.as_str-text)
  parse_segment-value (json t) = simp (B.get-object, B.as_str-text)
  parse_segment-value (xml t) = simp (B.get-object, B.as_str-text)
  parse_segment-value (poke poke_type id) = simp (B.get-object, B.as_str-text)
  parse_segment-value unknown = simp (B.get-object, B.as_str-text)

  parse_segments-values :
      (segments : List MessageSegment)
      → filter_map (parse_segment J) (map (segment_value B) segments) ≡ filter_map known segments
  parse_segments-values =
      filter_map-map (parse_segment J) (segment_value B) known parse_segment-value

  group_back : (g : Option ℤ) → FitsI64 g → (map_or_none B.integer g and_then J.as_i64) ≡ g
  group_back none h = refl
  group_back (some z) h = B.as_i64-integer z h

  age_back :
      (age : Option ℤ)
      → FitsI32 age
      → map_or_none as_i32 (map_or_none B.integer age and_then J.as_i64) ≡ age
  age_back none h = refl
  age_back (some z) h = rw (B.as_i64-integer z (IsI32→IsI64 z h)) (ap some (as_i32_fits z h))

  -- A sender whose numbers fit comes back as it was.
  parse_sender-fields :
      (v : V) (s : Sender)
      → J.get v "sender" ≡ some (B.object (sender_fields B s))
      → IsI64 s.user_id
      → FitsI32 s.age
      → parse_sender J v ≡ s
  unfolding parse_sender sender_fields
  parse_sender-fields v s e i f =
      simp
        (e, B.get-object, B.as_str-text, read_back, B.as_i64-integer s.user_id i, age_back s.age f)

  -- An `extra` that is an object and holds the type and the subtype.
  pub record Holds (extra : V) (key kind sub_type : String) (seconds self_id : ℤ) : Type 0 where
    pub object : B.is_object extra ≡ true
    pub kind_held : (str_at J extra key unwrap_or "") ≡ kind
    pub sub_type_held : (str_at J extra "sub_type" unwrap_or "") ≡ sub_type
    pub seconds_fit : IsI64 seconds
    pub self_id_fits : IsI64 self_id

  get-stamp :
      (extra : V) (post_type key : String) (seconds self_id : ℤ)
      → B.is_object extra ≡ true
      → J.get (stamp B extra post_type seconds self_id) key ≡ (
          if "self_id" == key
          then some (B.integer self_id)
          else if "time" == key
          then some (B.integer seconds)
          else if "post_type" == key
          then some (B.text post_type)
          else J.get extra key)
  unfolding stamp
  get-stamp extra post_type key seconds self_id o = rw (
    o,
    B.get-insert _ _ _ _ (B.is_object-insert _ _ _ (B.is_object-insert _ _ _ o)),
    B.get-insert _ _ _ _ (B.is_object-insert _ _ _ o),
    B.get-insert _ _ _ _ o,
  )

module _ {F : External} {J : JsonValue F.Value} (B : JsonBuild J) (timestamp : F.DateTime → ℤ)
    (timestamp_opt : ℤ → Option F.DateTime) where
  -- What the types of the fields and the reading of `extra` give for an event.
  pub record InRange (msg : MessageEvent F) : Type 0 where
    pub time_fits : IsI64 (timestamp msg.time)
    pub self_id_fits : IsI64 msg.self_id
    pub message_id_fits : IsI64 msg.message_id
    pub user_id_fits : IsI64 msg.user_id
    pub group_id_fits : FitsI64 msg.group_id
    pub font_fits : IsI32 msg.font
    pub sender_fits : IsI64 msg.sender.user_id
    pub age_fits : FitsI32 msg.sender.age

  message_back :
      (msg : MessageEvent F) (t now : F.DateTime) (id : F.Uuid)
      → InRange msg
      → timestamp_opt (timestamp msg.time) ≡ some t
      → parse_event J timestamp_opt (message_to_json B timestamp msg) now id
        ≡ ok (message (record msg { id = id; time = t; message = filter_map known msg.message }))
  unfolding parse_event parse_message_segments message_to_json sender_fields
  message_back msg t now id r e =
      simp
        (
          parse_event,
          parse_message_segments,
          get-set_if B,
          B.get-object,
          B.as_str-text,
          B.as_array-array,
          B.as_i64-integer _ r.time_fits,
          B.as_i64-integer _ r.self_id_fits,
          B.as_i64-integer _ r.message_id_fits,
          B.as_i64-integer _ r.user_id_fits,
          B.as_i64-integer _ r.sender_fits,
          B.as_i64-integer _ (IsI32→IsI64 _ r.font_fits),
          e,
          parse_segments-values B,
          read_back,
          age_back B _ r.age_fits,
          group_back B _ r.group_id_fits,
          message_type_of-text,
        )
        (ap
          (λ (f : ℤ). ok (
            message
              (record msg { id = id; time = t; message = filter_map known msg.message; font = f })))
          (as_i32_fits msg.font r.font_fits))

  -- The event that comes back, with the time read and a new id.
  unfoldable pub read_back_event : Event F → F.DateTime → F.Uuid → Event F
  read_back_event (message msg) t id =
      message (record msg { id = id; time = t; message = filter_map known msg.message })
  read_back_event (notice e) t id =
      notice (record e { id = id; time = t; extra = event_to_json B timestamp (notice e) })
  read_back_event (request e) t id =
      request (record e { id = id; time = t; extra = event_to_json B timestamp (request e) })
  read_back_event (meta e) t id =
      meta (record e { id = id; time = t; extra = event_to_json B timestamp (meta e) })

  abbrev pub Readable : Event F → Type 0
  Readable (message msg) = InRange msg
  Readable (notice e) =
      Holds B e.extra "notice_type" e.notice_type e.sub_type (timestamp e.time) e.self_id
  Readable (request e) =
      Holds B e.extra "request_type" e.request_type e.sub_type (timestamp e.time) e.self_id
  Readable (meta e) =
      Holds B e.extra "meta_event_type" e.meta_event_type e.sub_type (timestamp e.time) e.self_id

  -- The JSON of an event whose numbers fit their types is read back as this event, with the time
  -- that its seconds stand for and a new id: a message in every field, without its unknown
  -- segments, and another event in its type, subtype and account, with the JSON itself in its
  -- extra, if the extra is an object that holds its type and subtype.
  pub parse_event-event_to_json :
      (e : Event F) (t now : F.DateTime) (id : F.Uuid)
      → Readable e
      → timestamp_opt (timestamp (Event.time e)) ≡ some t
      → parse_event J timestamp_opt (event_to_json B timestamp e) now id
        ≡ ok (read_back_event e t id)
  unfolding event_to_json read_back_event Event.time parse_event
  parse_event-event_to_json (message msg) t now id r h = message_back msg t now id r h
  parse_event-event_to_json (notice e) t now id r h = simp (
    parse_event,
    get-stamp B e.extra "notice" _ _ _ r.object,
    B.as_str-text,
    B.as_i64-integer _ r.seconds_fit,
    B.as_i64-integer _ r.self_id_fits,
    h,
    r.kind_held,
    r.sub_type_held,
  )
  parse_event-event_to_json (request e) t now id r h = simp (
    parse_event,
    get-stamp B e.extra "request" _ _ _ r.object,
    B.as_str-text,
    B.as_i64-integer _ r.seconds_fit,
    B.as_i64-integer _ r.self_id_fits,
    h,
    r.kind_held,
    r.sub_type_held,
  )
  parse_event-event_to_json (meta e) t now id r h = simp (
    parse_event,
    get-stamp B e.extra "meta_event" _ _ _ r.object,
    B.as_str-text,
    B.as_i64-integer _ r.seconds_fit,
    B.as_i64-integer _ r.self_id_fits,
    h,
    r.kind_held,
    r.sub_type_held,
  )
