-- ===== src/OnebotV12/Reply.antt =====
-- crates/ferroq-gateway/src/onebot_v12.rs: a client that answers an event reaches the account, the
-- group and the user of the event, although all the ids that it sees are texts.
use ferroq.Prelude.{String, Option, none, some, [], ◌∷◌, ◌++◌, ◌≡◌, refl, eq_String}
use ferroq.Prelude.Int.{ℤ, IsI64}
use ferroq.Prelude.Decimal.{int_text}
use ferroq.Prelude.Decimal.Parse.{parse_i64, parse_i64-int_text}
use ferroq.Core.External.{External}
use ferroq.Core.Error.{ok}
use ferroq.Core.Json.{JsonValue, ◌and_then◌, map_or_none, str_at}
use ferroq.Core.Json.Build.{JsonBuild}
use ferroq.Core.Json.Values.{optional, or_else-none, get-set_if, message_type_text, FitsI64}
use ferroq.Core.Event.{message, MessageEvent, MessageType, private, group}
use ferroq.OnebotV12.{event_to_v12, parse_v12_action, self_object, send_action}

abbrev pub action_for : MessageType → String
action_for private = "send_private_msg"
action_for group = "send_group_msg"

send_action-text : (m : MessageType) → send_action (message_type_text m) ≡ action_for m
unfolding send_action message_type_text
send_action-text private = refl
send_action-text group = refl

-- What a client copies from the event into its request `raw` with the parameters `params`.
pub record Answers {V : Type 0} (J : JsonValue V) (event raw params : V) : Type 0 where
  pub action : str_at J raw "action" ≡ some "send_message"
  pub params_given : J.get raw "params" ≡ some params
  pub self_copied : J.get raw "self" ≡ J.get event "self"
  pub detail_type_copied : J.get params "detail_type" ≡ J.get event "detail_type"
  pub group_id_copied : J.get params "group_id" ≡ J.get event "group_id"
  pub user_id_copied : J.get params "user_id" ≡ J.get event "user_id"

module _ {F : External} {J : JsonValue F.Value} (B : JsonBuild J) (timestamp : F.DateTime → ℤ)
    (uuid_text : F.Uuid → String) where
  parsed_back :
      (g : Option ℤ)
      → FitsI64 g
      → (map_or_none (λ (n : ℤ). B.text (int_text n)) g and_then J.as_str and_then parse_i64) ≡ g
  parsed_back none h = refl
  parsed_back (some z) h = rw (B.as_str-text (int_text z)) (parse_i64-int_text z h)

  -- A OneBot v12 client that answers a message by copying the self, the kind and the ids of the
  -- event, all of which it sees as texts, gets a request for the account that received it, to
  -- the group or the user of the message, with these ids as the numbers that they were.
  pub parse_v12_action-event_to_v12 :
      (msg : MessageEvent F) (raw params : F.Value)
      → IsI64 msg.self_id
      → IsI64 msg.user_id
      → FitsI64 msg.group_id
      → Answers J (event_to_v12 B timestamp uuid_text (message msg)) raw params
      → parse_v12_action {F = F} B raw
        ≡ ok (record {
          action = action_for msg.message_type;
          params = B.object (
              optional "group_id" (map_or_none B.integer msg.group_id) []
              ++ ("user_id", B.integer msg.user_id)
                ∷ ("message_type", B.text (message_type_text msg.message_type))
                ∷ optional "message" (J.get params "message") []);
          echo = J.get raw "echo";
          self_id = some msg.self_id;
        })
  unfolding parse_v12_action event_to_v12 self_object
  parse_v12_action-event_to_v12 msg raw params i j k a =
      simp
        (
          parse_v12_action,
          a.action,
          a.params_given,
          a.self_copied,
          a.detail_type_copied,
          a.group_id_copied,
          a.user_id_copied,
          get-set_if B,
          B.get-object,
          B.as_str-text,
          or_else-none,
          parse_i64-int_text _ i,
          parse_i64-int_text _ j,
          parsed_back _ k,
          send_action-text,
        )
        (unfold optional in refl)
