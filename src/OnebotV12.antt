-- ===== src/OnebotV12.antt =====
-- crates/ferroq-gateway/src/onebot_v12.rs: events as OneBot v12 JSON, requests of a v12 client as
-- requests to a backend, and answers back. The seconds of a time, the text of a UUID and the text
-- of a JSON value are parameters.
pub mod Reply
use ferroq.Prelude.{
  ℕ, String, Bool, ◌||◌, Option, none, some, List, [], ◌∷◌, ◌++◌, map, ◌==◌, eq_String,
  if◌then◌else◌,
}
use ferroq.Prelude.Int.{ℤ}
use ferroq.Prelude.Decimal.{int_text}
use ferroq.Prelude.Decimal.Parse.{parse_i64}
use ferroq.Core.External.{External}
use ferroq.Core.Error.{Result, ok, err, internal}
use ferroq.Core.Api.{ApiRequest, ApiResponse}
use ferroq.Core.Json.{JsonValue, ◌and_then◌, ◌unwrap_or◌, map_or_none, str_at, any_text}
use ferroq.Core.Json.Build.{JsonBuild}
use ferroq.Core.Json.Values.{optional, message_type_text, set_if}
use ferroq.Core.Message.{
  MessageSegment, text, image, at, face, reply, voice, video, forward, json, xml, poke, unknown,
}
use ferroq.Core.Event.{
  Event, message, notice, request, meta, MessageEvent, NoticeEvent, RequestEvent, MetaEvent,
}

unfoldable pub send_action : String → String
send_action detail_type =
    if detail_type == "group"
    then "send_group_msg"
    else if detail_type == "private"
    then "send_private_msg"
    else "send_msg"

module _ {V : Type 0} {J : JsonValue V} (B : JsonBuild J) where
  unfoldable pub self_object : ℤ → V
  unfolding int_text
  self_object self_id =
      B.object (("platform", B.text "qq") ∷ ("user_id", B.text (int_text self_id)) ∷ [])

  -- `{ "type": …, "data": { … } }`
  abbrev v12_segment : String → List (String × V) → V
  v12_segment name fields = B.object (("type", B.text name) ∷ ("data", B.object fields) ∷ [])

  abbrev v12_file : String → Option String → List (String × V)
  v12_file file url = ("file_id", B.text file) ∷ optional "url" (map_or_none B.text url) []

  unfoldable pub segment_to_v12 : MessageSegment → V
  segment_to_v12 (text t) = v12_segment "text" (("text", B.text t) ∷ [])
  segment_to_v12 (image file url) = v12_segment "image" (v12_file file url)
  segment_to_v12 (at qq) = v12_segment "mention" (("user_id", B.text qq) ∷ [])
  segment_to_v12 (face id) = v12_segment "qq.face" (("id", B.text id) ∷ [])
  segment_to_v12 (reply id) = v12_segment "reply" (("message_id", B.text id) ∷ [])
  segment_to_v12 (voice file url) = v12_segment "voice" (v12_file file url)
  segment_to_v12 (video file url) = v12_segment "video" (v12_file file url)
  segment_to_v12 (forward id) = v12_segment "qq.forward" (("id", B.text id) ∷ [])
  segment_to_v12 (json t) = v12_segment "qq.json" (("data", B.text t) ∷ [])
  segment_to_v12 (xml t) = v12_segment "qq.xml" (("data", B.text t) ∷ [])
  segment_to_v12 (poke poke_type id) =
      v12_segment "qq.poke" (("type", B.text poke_type) ∷ ("id", B.text id) ∷ [])
  segment_to_v12 unknown = v12_segment "unknown" []

  unfoldable pub segments_to_v12 : List MessageSegment → V
  unfolding segment_to_v12
  segments_to_v12 segments = B.array (map segment_to_v12 segments)

  -- `params.get(key).and_then(as_str)`, parsed, and inserted under the key as a number.
  unfoldable pub id_field : V → String → List (String × V)
  unfolding parse_i64
  id_field params key =
      optional key (map_or_none B.integer (str_at J params key and_then parse_i64)) []

  unfoldable pub send_message : V → String × V
  unfolding id_field send_action
  send_message params =
      let detail_type = str_at J params "detail_type" unwrap_or "private" in
      (
        send_action detail_type,
        B.object (
            id_field params "group_id"
            ++ (id_field params "user_id"
                ++ ("message_type", B.text detail_type)
                  ∷ optional "message" (J.get params "message") [])),
      )

  unfoldable pub get_message : V → String × V
  unfolding parse_i64
  get_message params =
      let id = str_at J params "message_id" and_then parse_i64 in
      ("get_msg", set_if B params "message_id" (map_or_none B.integer id))

  unfoldable pub translate_v12_action : String → V → String × V
  unfolding send_message get_message
  translate_v12_action action params =
      if action == "send_message"
      then send_message params
      else if action == "get_self_info"
      then ("get_login_info", params)
      else if action == "get_message"
      then get_message params
      else if action == "get_user_info"
      then ("get_stranger_info", params)
      else if action == "leave_group"
      then ("set_group_leave", params)
      else if action == "kick_group_member"
      then ("set_group_kick", params)
      else if action == "ban_group_member"
      then ("set_group_ban", params)
      else (action, params)

  unfoldable pub v12_self_id : V → Option ℤ
  unfolding parse_i64
  v12_self_id raw = J.get raw "self" and_then (λ s. str_at J s "user_id") and_then parse_i64

  unfoldable pub login_info : (V → String) → V → V
  login_info to_text v = elim (J.get v "user_id") [
    | none ↦ v
    | some user_id ↦
        let name = J.get v "nickname" unwrap_or B.text "" in
        B.object (
          ("user_id", B.text (any_text J to_text user_id))
          ∷ ("user_name", name)
          ∷ ("user_displayname", name)
          ∷ [])
  ]

module _ {F : External} {J : JsonValue F.Value} (B : JsonBuild J) (timestamp : F.DateTime → ℤ)
    (uuid_text : F.Uuid → String) where
  -- The fields that an event of any type has.
  abbrev v12_fields : F.Uuid → F.DateTime → String → String → String → ℤ → List (String × F.Value)
  unfolding self_object
  v12_fields id time kind detail_type sub_type self_id =
      ("id", B.text (uuid_text id))
      ∷ ("time", B.float (timestamp time))
      ∷ ("type", B.text kind)
      ∷ ("detail_type", B.text detail_type)
      ∷ ("sub_type", B.text sub_type)
      ∷ ("self", self_object B self_id)
      ∷ []

  abbrev pub message_fields_v12 : MessageEvent F → List (String × F.Value)
  unfolding int_text segments_to_v12 message_type_text v12_fields
  message_fields_v12 msg =
      v12_fields msg.id msg.time "message" (message_type_text msg.message_type) msg.sub_type
        msg.self_id
      ++ ("message_id", B.text (int_text msg.message_id))
        ∷ ("message", segments_to_v12 B msg.message)
        ∷ ("alt_message", B.text msg.raw_message)
        ∷ ("user_id", B.text (int_text msg.user_id))
        ∷ []

  unfoldable pub message_event_to_v12 : MessageEvent F → F.Value
  unfolding message_fields_v12
  message_event_to_v12 msg =
      let group_id = map_or_none (λ (g : ℤ). B.text (int_text g)) msg.group_id in
      set_if B (B.object (message_fields_v12 msg)) "group_id" group_id

  unfoldable pub notice_event_to_v12 : NoticeEvent F → F.Value
  unfolding v12_fields
  notice_event_to_v12 evt =
      B.object (v12_fields evt.id evt.time "notice" evt.notice_type evt.sub_type evt.self_id)

  unfoldable pub request_event_to_v12 : RequestEvent F → F.Value
  unfolding v12_fields
  request_event_to_v12 evt =
      B.object (v12_fields evt.id evt.time "request" evt.request_type evt.sub_type evt.self_id)

  unfoldable pub meta_event_to_v12 : MetaEvent F → F.Value
  unfolding v12_fields
  meta_event_to_v12 evt =
      let detail_type =
        if evt.meta_event_type == "lifecycle" then "connect" else evt.meta_event_type in
      B.object (v12_fields evt.id evt.time "meta" detail_type evt.sub_type evt.self_id)

  unfoldable pub event_to_v12 : Event F → F.Value
  unfolding message_event_to_v12 notice_event_to_v12 request_event_to_v12 meta_event_to_v12
  event_to_v12 (message msg) = message_event_to_v12 msg
  event_to_v12 (notice evt) = notice_event_to_v12 evt
  event_to_v12 (request evt) = request_event_to_v12 evt
  event_to_v12 (meta evt) = meta_event_to_v12 evt

module _ {F : External} {J : JsonValue F.Value} (B : JsonBuild J) where
  unfoldable pub parse_v12_action : F.Value → Result (ApiRequest F)
  unfolding translate_v12_action v12_self_id
  parse_v12_action raw = elim (str_at J raw "action") [
    | none ↦ err (internal "missing action field")
    | some action ↦
        let (action', params') =
          translate_v12_action B action (J.get raw "params" unwrap_or B.object []) in
        ok (record {
          action = action';
          params = params';
          echo = J.get raw "echo";
          self_id = v12_self_id B raw;
        })
  ]

  unfoldable pub translate_v11_response : (F.Value → String) → String → ApiResponse F → F.Value
  unfolding login_info
  translate_v11_response to_text action resp =
      let payload =
        if action == "get_self_info" || action == "get_login_info"
        then login_info B to_text resp.payload
        else resp.payload in
      B.object (
        ("status", B.text resp.status)
        ∷ ("retcode", B.integer resp.retcode)
        ∷ ("data", payload)
        ∷ ("message", B.text resp.message)
        ∷ ("echo", resp.echo unwrap_or J.null)
        ∷ [])
