-- ===== src/Server/Satori.antt =====
-- crates/ferroq-gateway/src/server/satori.rs: the HTTP handler of the Satori server, and one
-- WebSocket connection. The reader, the task that pushes events and the writer take turns; a send
-- into the bounded queue that awaits a place is a step that is not there before. A writer whose send
-- fails is not modelled: from then on nothing goes out.
pub mod Runs
pub mod Orderly
pub mod Numbers
use Prim.Native.String.{◌++◌ as str_append}
use ferroq.Prelude.{
  ℕ, ◌+◌, ◌%◌, ◌^◌, String, Bool, true, false, ◌&&◌, ◌||◌, Option, none, some, List, [], ◌∷◌, ◌++◌,
  ◌⊎◌, inl, inr, is_empty, length, ltb, nat_eq, ◌==◌, eq_String, if◌then◌else◌,
}
use ferroq.Prelude.Int.{ℤ}
use ferroq.Prelude.Decimal.Parse.{parse_i64}
use ferroq.Core.External.{External}
use ferroq.Core.Error.{Result, ok, err, error_text}
use ferroq.Core.Api.{ApiRequest, ApiResponse}
use ferroq.Core.Event.{Event}
use ferroq.Core.Json.{JsonValue, ◌and_then◌, ◌unwrap_or◌, str_at}
use ferroq.Core.Json.Build.{JsonBuild}
use ferroq.Middleware.Text.{Text, bytes, eq_Text, strip_prefix}
use ferroq.Middleware.Auth.{SharedConfig, access_token, and_eq}
use ferroq.Router.{ApiRouter, route_named}
use ferroq.Stats.{
  RuntimeStats, record_api_call_for, record_ws_event_dropped, ws_connect, ws_disconnect,
}
use ferroq.Satori.Api.{parse_satori_api, translate_response}
use ferroq.Satori.Events.{event_to_signal, opcode_number, ready, pong, identify}

pub record SatoriState (F : External) (W : Type 0) : Type 0 where
  pub router : ApiRouter F W
  pub shared_config : SharedConfig
  pub stats : RuntimeStats
  pub sn_counter : ℕ

-- `sn_counter.fetch_add(1) + 1`, with what is left in the counter.
unfoldable pub next_sn : ℕ → ℕ
next_sn counter = (counter + 1) % 2 ^ 64

-- The header `Authorization` is missing, no text, or a text.
unfoldable pub check_auth : Text → Option (Option Text) → Bool
check_auth token header = is_empty token || elim header [
  | none ↦ false
  | some h ↦ elim h [
    | none ↦ false
    | some auth ↦ and_eq token (strip_prefix (bytes "Bearer ") auth)
  ]
]

pub data SatoriResponse (V : Type 0) : Type 0 where
  unauthorized : SatoriResponse V
  bad_request not_found server_error : String → SatoriResponse V
  json : V → SatoriResponse V

module _ {F : External} {W : Type 0} {J : JsonValue F.Value} (B : JsonBuild J)
    (to_text : F.Value → String) where
  abbrev pub respond :
      SatoriState F W
      → String
      → Result (ApiResponse F × String) × W
      → SatoriResponse F.Value × SatoriState F W × W
  unfolding record_api_call_for error_text translate_response
  respond state resource_method (ok (resp, adapter_name), w) = (
    json (translate_response B to_text resource_method resp),
    record state { stats = record_api_call_for state.stats adapter_name },
    w,
  )
  respond state resource_method (err e, w) = (server_error (error_text e), state, w)

  -- `user` is the text of the header `Satori-User-ID`; `from_str` reads JSON.
  unfoldable pub handle_satori_api :
      (String → String ⊎ F.Value)
      → SatoriState F W
      → String
      → Option (Option Text)
      → Option String
      → String
      → W
      → SatoriResponse F.Value × SatoriState F W × W
  unfolding check_auth access_token parse_i64 respond error_text
  handle_satori_api from_str state resource_method header user body w =
      if check_auth (access_token state.shared_config) header
      then elim (if body == "" then inr (B.object []) else from_str body) [
        | inl e ↦ (bad_request (str_append "invalid JSON: " e), state, w)
        | inr v ↦ elim (parse_satori_api {F = F} B resource_method v (user and_then parse_i64)) [
          | err e ↦ (not_found (error_text e), state, w)
          | ok request ↦ respond state resource_method (route_named state.router request w)
        ]
      ]
      else (unauthorized, state, w)

-- What goes out on a connection; an event with its number.
pub data Signal (F : External) : Type 0 where
  ready_signal pong_signal : Signal F
  event_signal : Event F → ℕ → Signal F

unfoldable pub signal_json :
    {F : External} {J : JsonValue F.Value} → JsonBuild J → (F.DateTime → ℤ) → Signal F → F.Value
unfolding event_to_signal opcode_number
signal_json B millis ready_signal = B.object (
    ("op", B.unsigned (opcode_number ready))
    ∷ ("body", B.object (("logins", B.array []) ∷ ("proxy_urls", B.array []) ∷ []))
    ∷ [])
signal_json B millis pong_signal = B.object (("op", B.unsigned (opcode_number pong)) ∷ [])
signal_json B millis (event_signal e sn) = event_to_signal B millis e sn

pub data Stage : Type 0 where
  identifying serving closed : Stage

-- `queue` and `wire` are what the writer has before it and behind it.
pub record Session (F : External) : Type 0 where
  pub stage : Stage
  pub capacity : ℕ
  pub queue : List (Signal F)
  pub wire : List (Signal F)

abbrev pub has_place : {F : External} → Session F → Bool
has_place c = ltb (length c.queue) c.capacity

-- `signal.get("op").and_then(as_u64).unwrap_or(255)`
abbrev pub op_of : {V : Type 0} → JsonValue V → V → ℕ
op_of J v = (J.get v "op" and_then J.as_u64) unwrap_or 255

abbrev pub token_of : {V : Type 0} → JsonValue V → V → String
token_of J v = (J.get v "body" and_then λ body. str_at J body "token") unwrap_or ""

-- Whether a value is an IDENTIFY with the token that is asked for. `as_bytes` gives the bytes.
unfoldable pub identifies : {V : Type 0} → JsonValue V → (String → Text) → Text → V → Bool
unfolding opcode_number
identifies J as_bytes required v =
    nat_eq (op_of J v) (opcode_number identify)
    && (is_empty required || as_bytes (token_of J v) == required)

unfoldable pub write_ready : {F : External} → Session F → Session F
write_ready c = record c { wire = c.wire ++ ready_signal ∷ [] }

-- A value that comes while the connection serves: a PING needs a place for its PONG.
unfoldable pub take_signal :
    {F : External} → JsonValue F.Value → F.Value → Session F → Option (Session F)
take_signal J v c =
    if nat_eq (op_of J v) 1
    then if has_place c then some (record c { queue = c.queue ++ pong_signal ∷ [] }) else none
    else some c

module _ {F : External} {W : Type 0} where
  unfoldable pub open_session : ℕ → SatoriState F W → Session F × SatoriState F W
  unfolding ws_connect
  open_session capacity state = (
    record { stage = identifying; capacity = capacity; queue = []; wire = [] },
    record state { stats = ws_connect state.stats },
  )

  -- The connection ends: `ws_disconnect`.
  unfoldable pub end_session : Session F × SatoriState F W → Session F × SatoriState F W
  unfolding ws_disconnect
  end_session (c, state) =
      (record c { stage = closed }, record state { stats = ws_disconnect state.stats })

  -- The answer to an IDENTIFY that is accepted or not; `writable` tells whether READY can be sent.
  unfoldable pub answer_identify :
      Bool → Bool → Session F × SatoriState F W → Session F × SatoriState F W
  unfolding end_session write_ready
  answer_identify true true (c, state) = (record (write_ready c) { stage = serving }, state)
  answer_identify false true (c, state) = end_session (write_ready c, state)
  answer_identify accepted false (c, state) = end_session (c, state)

  -- A value that comes before the connection serves.
  unfoldable pub take_identify :
      JsonValue F.Value
      → (String → Text)
      → F.Value
      → Bool
      → Session F × SatoriState F W
      → Session F × SatoriState F W
  unfolding identifies access_token answer_identify opcode_number
  take_identify J as_bytes v writable (c, state) =
      if nat_eq (op_of J v) (opcode_number identify)
      then answer_identify (identifies J as_bytes (access_token state.shared_config) v) writable
          (c, state)
      else (c, state)

  -- An event from the bus takes a number, and is dropped if there is no place.
  unfoldable pub push_signal : Event F → Session F × SatoriState F W → Session F × SatoriState F W
  unfolding next_sn record_ws_event_dropped
  push_signal e (c, state) =
      let sn = next_sn state.sn_counter in
      if has_place c
      then (
        record c { queue = c.queue ++ event_signal e sn ∷ [] },
        record state { sn_counter = sn },
      )
      else (c, record state { sn_counter = sn; stats = record_ws_event_dropped state.stats })

abbrev pub write_head : {F : External} → List (Signal F) → Session F → Session F
write_head [] c = c
write_head (m ∷ queue) c = record c { queue = queue; wire = c.wire ++ m ∷ [] }

unfoldable pub write_signal : {F : External} → Session F → Session F
write_signal c = write_head c.queue c
