-- ===== src/Satori/Api/Reply.antt =====
-- crates/ferroq-gateway/src/satori.rs: a client that answers a message in the channel that the
-- event names.
use ferroq.Prelude.{
  ℕ, String, Option, none, some, List, [], ◌∷◌, map, ◌⊎◌, inl, inr, ◌≡◌, refl, ap, ◌∙◌, false, ◌==◌,
  eq_String,
}
use ferroq.Prelude.Int.{ℤ, IsI64}
use ferroq.Prelude.Decimal.Parse.{parse_i64-int_text}
use ferroq.Core.External.{External}
use ferroq.Core.Error.{ok}
use ferroq.Core.Json.{JsonValue, ◌and_then◌, str_at}
use ferroq.Core.Json.Build.{JsonBuild}
use ferroq.Core.Json.Values.{segment_value}
use ferroq.Core.Event.{message, MessageEvent, private, group}
use ferroq.Satori.Elements.{parse_satori_elements}
use ferroq.Satori.Events.{
  event_to_satori, channel_id, message_body, body_fields, channel_object, with_guild,
}
use ferroq.Satori.Api.{parse_satori_api, message_create}

-- The body of a `message.create` with the id of the event's channel.
pub record InChannel {V : Type 0} (J : JsonValue V) (event body : V) (content : String)
    : Type 0 where
  pub channel_copied :
      str_at J body "channel_id" ≡ (J.get event "channel" and_then λ channel. str_at J channel "id")
  pub content_given : str_at J body "content" ≡ some content

-- The group of a group message, the user of a private one.
abbrev pub Destination : {F : External} → MessageEvent F → ℤ → Type 0
Destination msg target =
    ((msg.message_type ≡ group) × (msg.group_id ≡ some target))
    ⊎ ((msg.message_type ≡ private) × (msg.user_id ≡ target))

channel_id-Destination :
    {F : External} (msg : MessageEvent F) (target : ℤ)
    → Destination msg target
    → channel_id msg ≡ target
unfolding channel_id
channel_id-Destination msg target (inl (e, g)) = rw (e, g)
channel_id-Destination msg target (inr (e, u)) = rw e u

get-with_guild :
    {V : Type 0} {J : JsonValue V} (B : JsonBuild J) (fields : List (String × V)) (key : String)
    (guild : Option V) (member : V)
    → ("guild" == key) ≡ false
    → ("member" == key) ≡ false
    → J.get (with_guild B (B.object fields) guild member) key ≡ J.get (B.object fields) key
unfolding with_guild
get-with_guild B fields key none member g m = refl
get-with_guild B fields key (some guild) member g m =
    let o = B.is_object-object fields in
    rw (B.get-insert _ _ _ _ (B.is_object-insert _ guild "guild" o), m, B.get-insert _ _ _ _ o, g)

module _ {F : External} {J : JsonValue F.Value} (B : JsonBuild J) (millis : F.DateTime → ℤ) where
  get-body :
      (msg : MessageEvent F) (sn : ℕ)
      → J.get (B.object (message_body B millis msg sn)) "channel"
        ≡ some (channel_object B millis msg)
  unfolding message_body body_fields
  get-body msg sn = simp B.get-object

  get-channel :
      (msg : MessageEvent F) (sn : ℕ)
      → J.get (event_to_satori B millis (message msg) sn) "channel"
        ≡ some (channel_object B millis msg)
  unfolding event_to_satori
  get-channel msg sn =
      get-with_guild B (message_body B millis msg sn) "channel" _ _ refl refl ∙ get-body msg sn

  message_create-target :
      (msg : MessageEvent F) (sn : ℕ) (body : F.Value) (content : String) (target : ℤ)
      → IsI64 target
      → Destination msg target
      → InChannel J (event_to_satori B millis (message msg) sn) body content
      → message_create B body ≡ (
        "send_group_msg",
        B.object (
            ("group_id", B.integer target)
            ∷ ("message", B.array (map (segment_value B) (parse_satori_elements content)))
            ∷ []),
      )
  unfolding message_create channel_object
  message_create-target msg sn body content target i d c = simp (
    message_create,
    c.content_given,
    c.channel_copied,
    get-channel msg sn,
    B.get-object,
    B.as_str-text,
    channel_id-Destination msg target d,
    parse_i64-int_text target i,
  )

  -- A Satori client that answers in the channel of a message event sends the elements of its
  -- content to a group: to the group of a group message, and, for a private message, to the
  -- group whose number is that of the user.
  pub parse_satori_api-event_to_satori :
      (msg : MessageEvent F) (sn : ℕ) (body : F.Value) (content : String) (account : Option ℤ)
      (target : ℤ)
      → IsI64 target
      → Destination msg target
      → InChannel J (event_to_satori B millis (message msg) sn) body content
      → parse_satori_api {F = F} B "message.create" body account
        ≡ ok (record {
          action = "send_group_msg";
          params = B.object (
              ("group_id", B.integer target)
              ∷ ("message", B.array (map (segment_value B) (parse_satori_elements content)))
              ∷ []);
          echo = none;
          self_id = account;
        })
  unfolding parse_satori_api
  parse_satori_api-event_to_satori msg sn body content account target i d c =
      ap
        (λ (p : String × F.Value).
          ok (record { action = p.0; params = p.1; echo = none; self_id = account }))
        (message_create-target msg sn body content target i d c)
