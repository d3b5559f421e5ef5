-- ===== src/OnebotV11.antt =====
-- crates/ferroq-gateway/src/onebot_v11.rs: from the JSON of an event to the event. The methods of
-- `serde_json::Value`, `Utc.timestamp_opt`, the time and the new UUID are
-- parameters.
pub mod Parsing
pub mod Output
use Prim.Native.String.{◌++◌ as str_append}
use ferroq.Prelude.{
  ℕ, String, Bool, true, false, ◌||◌, Option, none, some, List, [], ◌∷◌, ◌==◌, eq_String,
  if◌then◌else◌,
}
use ferroq.Prelude.Int.{ℤ, pos, as_i32}
use ferroq.Core.External.{External}
use ferroq.Core.Json.{
  JsonValue, ◌and_then◌, ◌unwrap_or◌, map_or_none, filter_map, str_at, int_at, id_text, id_at,
}
use ferroq.Core.Error.{GatewayError, internal, Result, ok, err}
use ferroq.Core.Message.{
  MessageSegment, text, image, at, face, reply, voice, video, forward, json, xml, poke,
}
use ferroq.Core.Event.{
  Event, message, notice, request, meta, MessageEvent, MessageType, private, group, Sender,
}

module _ {V : Type 0} (J : JsonValue V) where
  unfoldable pub parse_single_segment : String → V → Option MessageSegment
  parse_single_segment seg_type v =
      if seg_type == "text"
      then map_or_none text (str_at J v "text")
      else if seg_type == "image"
      then some (image (str_at J v "file" unwrap_or "") (str_at J v "url"))
      else if seg_type == "at"
      then some (at (id_at J v "qq"))
      else if seg_type == "face"
      then some (face (id_at J v "id"))
      else if seg_type == "reply"
      then some (reply (id_at J v "id"))
      else if seg_type == "record"
      then some (voice (str_at J v "file" unwrap_or "") (str_at J v "url"))
      else if seg_type == "video"
      then some (video (str_at J v "file" unwrap_or "") (str_at J v "url"))
      else if seg_type == "forward"
      then some (forward (str_at J v "id" unwrap_or ""))
      else if seg_type == "json"
      then some (json (str_at J v "data" unwrap_or ""))
      else if seg_type == "xml"
      then some (xml (str_at J v "data" unwrap_or ""))
      else if seg_type == "poke"
      then some (poke (str_at J v "type" unwrap_or "") (str_at J v "id" unwrap_or ""))
      else none

  -- The closure over the elements of the array.
  unfoldable pub parse_segment : V → Option MessageSegment
  unfolding parse_single_segment
  parse_segment seg = str_at J seg "type" and_then λ seg_type.
      parse_single_segment seg_type (J.get seg "data" unwrap_or J.null)

  unfoldable pub parse_message_segments : V → List MessageSegment
  unfolding parse_segment
  parse_message_segments raw = elim (J.get raw "message" and_then J.as_array) [
    | some arr ↦ filter_map parse_segment arr
    | none ↦ elim (str_at J raw "message") [ some t ↦ text t ∷ [] | none ↦ [] ]
  ]

  unfoldable pub parse_sender : V → Sender
  unfolding as_i32
  parse_sender raw =
      let sender = J.get raw "sender" in
      let str = λ (key : String). sender and_then (λ v. str_at J v key) in
      record {
        user_id = (sender and_then λ v. int_at J v "user_id") unwrap_or pos 0;
        nickname = str "nickname" unwrap_or "";
        card = str "card";
        sex = str "sex";
        age = map_or_none as_i32 (sender and_then λ v. int_at J v "age");
        area = str "area";
        level = str "level";
        role = str "role";
        title = str "title";
      }

abbrev pub message_type_of : String → MessageType
message_type_of t = if t == "group" then group else private

abbrev pub missing_post_type : GatewayError
missing_post_type = internal "missing post_type"

abbrev pub unknown_post_type : String → GatewayError
unknown_post_type other = internal (str_append "unknown post_type: " other)

unfoldable pub parse_time : {V T : Type 0} → JsonValue V → (ℤ → Option T) → V → T → T
parse_time J timestamp_opt raw now = (int_at J raw "time" and_then timestamp_opt) unwrap_or now

module _ {F : External} (J : JsonValue F.Value) (timestamp_opt : ℤ → Option F.DateTime) where
  unfoldable pub parse_message_event : F.Value → ℤ → F.DateTime → F.Uuid → Event F
  unfolding parse_message_segments parse_sender as_i32
  parse_message_event raw self_id time id = message (record {
    id = id;
    time = time;
    self_id = self_id;
    message_type = message_type_of (str_at J raw "message_type" unwrap_or "private");
    sub_type = str_at J raw "sub_type" unwrap_or "";
    message_id = int_at J raw "message_id" unwrap_or pos 0;
    user_id = int_at J raw "user_id" unwrap_or pos 0;
    group_id = int_at J raw "group_id";
    message = parse_message_segments J raw;
    raw_message = str_at J raw "raw_message" unwrap_or "";
    sender = parse_sender J raw;
    font = as_i32 (int_at J raw "font" unwrap_or pos 0);
  })

  unfoldable pub parse_notice_event : F.Value → ℤ → F.DateTime → F.Uuid → Event F
  parse_notice_event raw self_id time id = notice (record {
    id = id;
    time = time;
    self_id = self_id;
    notice_type = str_at J raw "notice_type" unwrap_or "";
    sub_type = str_at J raw "sub_type" unwrap_or "";
    extra = raw;
  })

  unfoldable pub parse_request_event : F.Value → ℤ → F.DateTime → F.Uuid → Event F
  parse_request_event raw self_id time id = request (record {
    id = id;
    time = time;
    self_id = self_id;
    request_type = str_at J raw "request_type" unwrap_or "";
    sub_type = str_at J raw "sub_type" unwrap_or "";
    extra = raw;
  })

  unfoldable pub parse_meta_event : F.Value → ℤ → F.DateTime → F.Uuid → Event F
  parse_meta_event raw self_id time id = meta (record {
    id = id;
    time = time;
    self_id = self_id;
    meta_event_type = str_at J raw "meta_event_type" unwrap_or "";
    sub_type = str_at J raw "sub_type" unwrap_or "";
    extra = raw;
  })

  -- The `match` on `post_type`.
  unfoldable pub parse_as : String → F.Value → ℤ → F.DateTime → F.Uuid → Result (Event F)
  unfolding parse_message_event parse_notice_event parse_request_event parse_meta_event
  parse_as post_type raw self_id time id =
      if post_type == "message" || post_type == "message_sent"
      then ok (parse_message_event raw self_id time id)
      else if post_type == "notice"
      then ok (parse_notice_event raw self_id time id)
      else if post_type == "request"
      then ok (parse_request_event raw self_id time id)
      else if post_type == "meta_event"
      then ok (parse_meta_event raw self_id time id)
      else err (unknown_post_type post_type)

  -- `now` is the time of the call, `id` the UUID drawn.
  unfoldable pub parse_event : F.Value → F.DateTime → F.Uuid → Result (Event F)
  unfolding parse_as parse_time
  parse_event raw now id = elim (str_at J raw "post_type") [
    | none ↦ err missing_post_type
    | some post_type ↦
        parse_as post_type raw (int_at J raw "self_id" unwrap_or pos 0)
          (parse_time J timestamp_opt raw now) id
  ]
