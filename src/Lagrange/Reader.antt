-- ===== src/Lagrange/Reader.antt =====
-- crates/ferroq-gateway/src/adapter/lagrange.rs: what a reader task does with a message of the
-- backend, and at its end.
use ferroq.Prelude.{
  ℕ, String, ◌&&◌, Option, none, some, [], ◌∷◌, ◌++◌, ◌⊎◌, inl, inr, is_some, eq_String, eq_ℕ,
  if◌then◌else◌,
}
use ferroq.Prelude.Int.{ℤ, negsuc, as_i32}
use ferroq.Prelude.Decimal.{to_string}
use ferroq.Prelude.HashMap
use ferroq.Core.External.{External}
use ferroq.Core.Json.{JsonValue, ◌and_then◌, ◌unwrap_or◌, str_at, int_at}
use ferroq.Core.Error.{ok, err}
use ferroq.Core.Api.{ApiResponse}
use ferroq.Core.Event
use ferroq.Core.Event.{Event}
use ferroq.Core.Adapter.{reconnecting, is_connected}
use ferroq.OnebotV11.{parse_event}
use ferroq.Lagrange.{World, pong, put, send, stop_task}

-- A message as the library gives it to the reader: `Binary`, `Pong` and the like are `other`.
pub data Incoming : Type 0 where
  text ping : String → Incoming
  close other : Incoming
  failed : String → Incoming

-- `serde_json::from_str`, and the parameters of `parse_event`.
pub record Source (F : External) : Type 0 where
  pub json : JsonValue F.Value
  pub from_str : String → String ⊎ F.Value
  pub timestamp_opt : ℤ → Option F.DateTime
  pub now : F.DateTime
  pub new_id : F.Uuid

module _ {V : Type 0} (J : JsonValue V) where
  -- The text of an echo: a string, or the digits of a number.
  unfoldable pub echo_text : Option V → Option String
  unfolding to_string
  echo_text echo = elim (echo and_then J.as_str) [
    | some e ↦ some e
    | none ↦ elim (echo and_then J.as_u64) [ some n ↦ some (to_string n) | none ↦ none ]
  ]

module _ {F : External} where
  -- The call under this echo, if there is one, is taken out of the map and gets the answer.
  unfoldable pub resolve : String → ApiResponse F → World F → World F
  resolve echo response w = elim (HashMap.get w.inner.pending_calls echo) [
    | none ↦ w
    | some id ↦ record w {
      inner = record w.inner { pending_calls = HashMap.remove echo w.inner.pending_calls };
      replies = HashMap.insert id response w.replies;
    }
  ]

  abbrev pub learn : ℤ → World F → World F
  learn self_id w = elim w.inner.self_id [
    | some known ↦ w
    | none ↦ put w (record w.inner { self_id = some self_id })
  ]

  abbrev pub send_event : Option ℕ → Event F → World F → World F
  send_event none event w = w
  send_event (some tx) event w =
      if w.listening tx then record w { events = w.events ++ (tx, event) ∷ [] } else w

  unfoldable pub send_pong : Option ℕ → String → World F → World F
  unfolding send
  send_pong none body w = w
  send_pong (some tx) body w = (send tx (pong body) w).1

  -- The end of the reader, behind its loop.
  unfoldable pub exit_reader : ℕ → World F → World F
  exit_reader n w =
      let w' = record w { readers = stop_task n w.readers } in
      if is_connected w'.inner.state then put w' (record w'.inner { state = reconnecting }) else w'

module _ {F : External} (S : Source F) where
  unfoldable pub api_response : F.Value → ApiResponse F
  unfolding as_i32
  api_response value = record {
    status = str_at S.json value "status" unwrap_or "unknown";
    retcode = as_i32 (int_at S.json value "retcode" unwrap_or negsuc 0);
    payload = S.json.get value "data" unwrap_or S.json.null;
    message = str_at S.json value "message" unwrap_or "";
    echo = S.json.get value "echo";
  }

  unfoldable pub handle_api_response : F.Value → World F → World F
  unfolding echo_text api_response resolve
  handle_api_response value w = elim (echo_text S.json (S.json.get value "echo")) [
    | none ↦ w
    | some echo ↦ resolve echo (api_response value) w
  ]

  unfoldable pub handle_event : F.Value → World F → World F
  unfolding parse_event Event.self_id
  handle_event value w = elim (parse_event S.json S.timestamp_opt value S.now S.new_id) [
    | err e ↦ w
    | ok event ↦ send_event w.inner.event_tx event (learn (Event.self_id event) w)
  ]

  unfoldable pub handle_text_message : String → World F → World F
  unfolding handle_api_response handle_event
  handle_text_message body w = elim (S.from_str body) [
    | inl e ↦ w
    | inr value ↦
        if is_some (S.json.get value "status") && is_some (S.json.get value "echo")
        then handle_api_response value w
        else if is_some (S.json.get value "post_type")
        then handle_event value w
        else w
  ]

  -- One message to the reader of this number.
  unfoldable pub read : ℕ → Incoming → World F → World F
  unfolding handle_text_message send_pong exit_reader
  read n (text body) w = handle_text_message body w
  read n (ping body) w = send_pong w.inner.ws_writer_tx body w
  read n other w = w
  read n close w = exit_reader n w
  read n (failed e) w = exit_reader n w
