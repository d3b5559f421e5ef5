-- ===== src/Tests/RoundTrips.antt =====
-- crates/ferroq-gateway/src/onebot_v11.rs, onebot_v12.rs and satori.rs: what goes out to a client
-- and comes back, at concrete inputs.
use ferroq.Prelude.{ℕ, String, none, some, [], ◌∷◌, map, inr, ◌≡◌, refl, arith}
use ferroq.Prelude.Int.{ℤ, pos}
use ferroq.Core.External.{External}
use ferroq.Core.Error.{ok}
use ferroq.Core.Json.Values.{optional, set_if, message_type_text, segment_value}
use ferroq.Core.Message.{text, at, unknown}
use ferroq.Core.Event
use ferroq.Core.Event.{Event, message, notice, MessageEvent, group, private, Sender}
use ferroq.OnebotV11.{parse_event}
use ferroq.OnebotV11.Output.{event_to_json}
use ferroq.OnebotV11.Output.RoundTrip.{read_back_event, parse_event-event_to_json}
use ferroq.OnebotV12.{event_to_v12, self_object, parse_v12_action}
use ferroq.OnebotV12.Reply.{Answers, parse_v12_action-event_to_v12}
use ferroq.Satori.Elements.{parse_satori_elements}
use ferroq.Satori.Events.{event_to_satori, with_guild}
use ferroq.Satori.Api.{parse_satori_api}
use ferroq.Satori.Api.Reply.{InChannel, parse_satori_api-event_to_satori}
use ferroq.Tests.JsonTree.{Tree, string, number, tree_json, tree_build}

abbrev world : External
world = record { Value = Tree; DateTime = ℤ; Uuid = ℕ }

abbrev ann : Sender
ann = record {
  user_id = pos 5;
  nickname = "ann";
  card = some "Ann";
  sex = none;
  age = some (pos 30);
  area = none;
  level = none;
  role = some "member";
  title = none;
}

abbrev greeting : MessageEvent world
greeting = record {
  id = 0;
  time = pos 100;
  self_id = pos 10;
  message_type = group;
  sub_type = "normal";
  message_id = pos 7;
  user_id = pos 5;
  group_id = some (pos 99);
  message = at "10" ∷ unknown ∷ text " hi" ∷ [];
  raw_message = "hi";
  sender = ann;
  font = pos 0;
}

abbrev seconds : ℤ → ℤ
seconds t = t

parse_event-event_to_json_example :
    parse_event {F = world} tree_json
      (λ t. some t)
      (event_to_json {F = world} tree_build seconds (message greeting))
      (pos 200)
      1
    ≡ ok (read_back_event tree_build seconds (λ t. some t) (message greeting) (pos 100) 1)
unfolding Event.time
parse_event-event_to_json_example =
    parse_event-event_to_json {F = world} tree_build seconds (λ t. some t) (message greeting)
      (pos 100) (pos 200) 1 (omega arith) refl

abbrev no_text : ℕ → String
no_text id = "id"

-- The request of a v12 client that answers `greeting`, and its parameters.
abbrev answer_params : Tree
answer_params = tree_build.object (
    ("detail_type", string "group")
    ∷ ("group_id", string "99")
    ∷ ("user_id", string "5")
    ∷ ("message", string "hello")
    ∷ [])

abbrev answer : Tree
answer = tree_build.object (
    ("action", string "send_message")
    ∷ ("params", answer_params)
    ∷ ("self", self_object tree_build (pos 10))
    ∷ [])

answers :
    Answers tree_json
      (event_to_v12 {F = world} tree_build seconds no_text (message greeting))
      answer
      answer_params
unfolding event_to_v12 set_if
answers = record {
  action = refl;
  params_given = refl;
  self_copied = refl;
  detail_type_copied = refl;
  group_id_copied = refl;
  user_id_copied = refl;
}

parse_v12_action-event_to_v12_example :
    parse_v12_action {F = world} tree_build answer
    ≡ ok (record {
      action = "send_group_msg";
      params = tree_build.object (
          ("group_id", number (pos 99))
          ∷ ("user_id", number (pos 5))
          ∷ ("message_type", string "group")
          ∷ ("message", string "hello")
          ∷ []);
      echo = none;
      self_id = some (pos 10);
    })
unfolding optional message_type_text
parse_v12_action-event_to_v12_example =
    parse_v12_action-event_to_v12 {F = world} tree_build seconds no_text greeting answer
      answer_params (omega arith) (omega arith) (omega arith) answers

-- The same message sent in private, and a client that answers it in its channel.
abbrev whisper : MessageEvent world
whisper = record greeting { message_type = private; group_id = none }

abbrev satori_answer : Tree
satori_answer = tree_build.object (("channel_id", string "5") ∷ ("content", string "hello") ∷ [])

in_channel :
    InChannel tree_json
      (event_to_satori {F = world} tree_build seconds (message whisper) 1)
      satori_answer
      "hello"
unfolding event_to_satori with_guild
in_channel = record { channel_copied = refl; content_given = refl }

parse_satori_api-event_to_satori_example :
    parse_satori_api {F = world} tree_build "message.create" satori_answer (some (pos 10))
    ≡ ok (record {
      action = "send_group_msg";
      params = tree_build.object (
          ("group_id", number (pos 5))
          ∷ (
            "message",
            tree_build.array (map (segment_value tree_build) (parse_satori_elements "hello")),
          )
          ∷ []);
      echo = none;
      self_id = some (pos 10);
    })
parse_satori_api-event_to_satori_example =
    parse_satori_api-event_to_satori {F = world} tree_build seconds whisper 1 satori_answer "hello"
      (some (pos 10)) (pos 5) (omega arith) (inr (refl, refl)) in_channel
