-- ===== src/Satori/Events.antt =====
-- crates/ferroq-gateway/src/satori.rs: events as Satori JSON. The milliseconds of a time are a
-- parameter.
use ferroq.Prelude.{
  ℕ, String, Option, none, some, List, [], ◌∷◌, ◌++◌, ◌||◌, ◌==◌, eq_String, if◌then◌else◌,
}
use ferroq.Prelude.Int.{ℤ, pos}
use ferroq.Prelude.Decimal.{int_text}
use ferroq.Core.External.{External}
use ferroq.Core.Json.{JsonValue, ◌and_then◌, ◌unwrap_or◌, map_or_none}
use ferroq.Core.Json.Build.{JsonBuild}
use ferroq.Core.Json.Values.{optional, set_if}
use ferroq.Core.Event.{
  Event, message, notice, request, meta, MessageEvent, MessageType, private, group, NoticeEvent,
  RequestEvent, MetaEvent, Sender,
}
use ferroq.Satori.Elements.{segments_to_satori_elements}

-- `Opcode` with its number on the wire.
pub data Opcode : Type 0 where
  event ping pong identify ready meta_update : Opcode

unfoldable pub opcode_number : Opcode → ℕ
opcode_number event = 0
opcode_number ping = 1
opcode_number pong = 2
opcode_number identify = 3
opcode_number ready = 4
opcode_number meta_update = 5

abbrev pub non_empty : String → Option String
non_empty s = if s == "" then none else some s

unfoldable pub channel_id : {F : External} → MessageEvent F → ℤ
channel_id msg = elim msg.message_type [
  | group ↦ msg.group_id unwrap_or pos 0
  | private ↦ msg.user_id
]

unfoldable pub channel_type : MessageType → ℕ
channel_type group = 0
channel_type private = 1

unfoldable pub notice_type_of : String → String
notice_type_of t =
    if t == "group_increase"
    then "guild-member-added"
    else if t == "group_decrease"
    then "guild-member-removed"
    else if t == "group_ban"
    then "guild-member-updated"
    else if t == "group_recall" || t == "friend_recall"
    then "message-deleted"
    else if t == "group_admin"
    then "guild-member-updated"
    else if t == "notify"
    then "interaction/button"
    else "internal"

unfoldable pub request_type_of : String → String
request_type_of t =
    if t == "friend"
    then "friend-request"
    else if t == "group"
    then "guild-member-request"
    else "internal"

unfoldable pub meta_type_of : String → String
meta_type_of t = if t == "lifecycle" then "login-updated" else "internal"

module _ {V : Type 0} {J : JsonValue V} (B : JsonBuild J) where
  unfoldable pub login_object : ℤ → V
  unfolding int_text
  login_object self_id = B.object (
      ("sn", B.unsigned 0)
      ∷ ("platform", B.text "qq")
      ∷ (
        "user",
        B.object (("id", B.text (int_text self_id)) ∷ ("name", B.text (int_text self_id)) ∷ []),
      )
      ∷ ("status", B.unsigned 1)
      ∷ [])

  abbrev pub text_of : Option String → Option V
  text_of = map_or_none B.text

  -- With a sender, as both calls have one.
  unfoldable pub user_object : ℤ → Sender → V
  unfolding int_text set_if
  user_object user_id s =
      let user = B.object (("id", B.text (int_text user_id)) ∷ []) in
      let nick = s.card and_then non_empty in
      set_if B (set_if B user "name" (text_of (non_empty s.nickname))) "nick" (text_of nick)

  -- `if let Some(guild) = guild_object(msg) { … }`
  unfoldable pub with_guild : V → Option V → V → V
  with_guild body none member = body
  with_guild body (some guild) member = B.insert (B.insert body "guild" guild) "member" member

  -- The fields that the body of every event has.
  unfoldable pub body_fields : ℕ → String → ℤ → ℤ → List (String × V)
  unfolding login_object
  body_fields sn satori_type millis self_id =
      ("sn", B.unsigned sn)
      ∷ ("type", B.text satori_type)
      ∷ ("timestamp", B.integer millis)
      ∷ ("login", login_object self_id)
      ∷ []

module _ {F : External} {J : JsonValue F.Value} (B : JsonBuild J) (millis : F.DateTime → ℤ) where
  unfoldable pub channel_object : MessageEvent F → F.Value
  unfolding int_text channel_id channel_type
  channel_object msg = B.object (
      ("id", B.text (int_text (channel_id msg)))
      ∷ ("type", B.unsigned (channel_type msg.message_type))
      ∷ [])

  unfoldable pub guild_object : MessageEvent F → Option F.Value
  unfolding int_text
  guild_object msg = elim msg.message_type [
    | private ↦ none
    | group ↦ some (B.object (("id", B.text (int_text (msg.group_id unwrap_or pos 0))) ∷ []))
  ]

  unfoldable pub message_body : MessageEvent F → ℕ → List (String × F.Value)
  unfolding body_fields channel_object user_object int_text segments_to_satori_elements
  message_body msg sn =
      body_fields B sn "message-created" (millis msg.time) msg.self_id
      ++ ("channel", channel_object msg)
        ∷ ("user", user_object B msg.user_id msg.sender)
        ∷ (
          "message",
          B.object (
              ("id", B.text (int_text msg.message_id))
              ∷ ("content", B.text (segments_to_satori_elements msg.message))
              ∷ ("user", user_object B msg.user_id msg.sender)
              ∷ ("created_at", B.integer (millis msg.time))
              ∷ []),
        )
        ∷ []

  unfoldable pub message_event_to_satori : MessageEvent F → ℕ → F.Value
  unfolding message_body guild_object
  message_event_to_satori msg sn =
      with_guild B (B.object (message_body msg sn)) (guild_object msg)
        (B.object (optional "nick" (text_of B (msg.sender.card and_then non_empty)) []))

  unfoldable pub notice_event_to_satori : NoticeEvent F → ℕ → F.Value
  unfolding notice_type_of body_fields
  notice_event_to_satori evt sn =
      B.object (body_fields B sn (notice_type_of evt.notice_type) (millis evt.time) evt.self_id)

  unfoldable pub request_event_to_satori : RequestEvent F → ℕ → F.Value
  unfolding request_type_of body_fields
  request_event_to_satori evt sn =
      B.object (body_fields B sn (request_type_of evt.request_type) (millis evt.time) evt.self_id)

  unfoldable pub meta_event_to_satori : MetaEvent F → ℕ → F.Value
  unfolding meta_type_of body_fields
  meta_event_to_satori evt sn =
      B.object (body_fields B sn (meta_type_of evt.meta_event_type) (millis evt.time) evt.self_id)

  unfoldable pub event_to_satori : Event F → ℕ → F.Value
  unfolding message_event_to_satori notice_event_to_satori request_event_to_satori
      meta_event_to_satori
  event_to_satori (message msg) sn = message_event_to_satori msg sn
  event_to_satori (notice evt) sn = notice_event_to_satori evt sn
  event_to_satori (request evt) sn = request_event_to_satori evt sn
  event_to_satori (meta evt) sn = meta_event_to_satori evt sn

  unfoldable pub event_to_signal : Event F → ℕ → F.Value
  unfolding event_to_satori opcode_number
  event_to_signal e sn =
      B.object (("op", B.unsigned (opcode_number event)) ∷ ("body", event_to_satori e sn) ∷ [])
