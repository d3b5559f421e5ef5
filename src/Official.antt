-- ===== src/Official.antt =====
-- crates/ferroq-gateway/src/adapter/official.rs: the adapter for an official bot API over HTTP. The
-- HTTP client, the readers of JSON and the JSON of a request are parameters; the world `W` is what
-- is at the other end of the network. The event channel is stored and never used, and is left out.
pub mod Modes
pub mod Calls
pub mod Fallback
use ferroq.Prelude.{
  ℕ, String, Bool, true, false, ◌&&◌, ◌||◌, not, Option, none, some, List, [], ◌∷◌, ◌++◌, any, ◌⊎◌,
  inl, inr, ◌==◌, eq_String, if◌then◌else◌, is_some,
}
use ferroq.Prelude.Int.{ℤ, pos, as_i32, int_eq}
use ferroq.Prelude.Str.{concat, contains, ends_with, replace, trim_end_matches, truncate}
use ferroq.Core.External.{External}
use ferroq.Core.Json.{JsonValue, ◌unwrap_or◌, str_at, int_at}
use ferroq.Core.Config.{BackendConfig}
use ferroq.Core.Validation.{codes, is_blank}
use ferroq.Core.Error.{GatewayError, http, connection, Result, ok, err}
use ferroq.Core.Api.{ApiRequest, ApiResponse, success, with_echo}
use ferroq.Core.Adapter.{
  AdapterState, disconnected, connecting, connected, is_connected, state_text, AdapterInfo,
  BackendAdapter,
}
use ferroq.Failover.{or}

pub data ApiPathMode : Type 0 where
  template api_prefixed direct_action legacy_body : ApiPathMode

-- The derived `PartialEq` and `Debug`
abbrev pub mode_eq : ApiPathMode → ApiPathMode → Bool
mode_eq template template = true
mode_eq api_prefixed api_prefixed = true
mode_eq direct_action direct_action = true
mode_eq legacy_body legacy_body = true
mode_eq _ _ = false

abbrev mode_text : ApiPathMode → String
mode_text template = "Template"
mode_text api_prefixed = "ApiPrefixed"
mode_text direct_action = "DirectAction"
mode_text legacy_body = "LegacyBody"

pub record Inner : Type 0 where
  pub state : AdapterState
  pub self_id : Option ℤ
  pub preferred_mode : Option ApiPathMode

pub record OfficialAdapter : Type 0 where
  pub name : String
  pub url : String
  pub access_token : String
  pub connect_timeout : ℕ
  pub api_timeout : ℕ

-- A request that the client sends, and what may come of it: no answer, an answer whose body cannot
-- be read, or a status (a success, its text) with a body.
pub record HttpRequest (F : External) : Type 0 where
  pub url : String
  pub bearer : Option String
  pub timeout : ℕ
  pub body : F.Value

pub data HttpReply : Type 0 where
  send_failed body_failed : String → HttpReply
  replied : Bool → String → String → HttpReply

-- `reqwest`, and the readings of a text as JSON and as a response.
pub record Client (F : External) (W : Type 0) : Type 0 where
  pub post : HttpRequest F → W → HttpReply × W
  pub request_json : ApiRequest F → F.Value
  pub as_response : String → Option (ApiResponse F)
  pub from_str : String → String ⊎ F.Value
  pub empty_object : F.Value

unfoldable pub new_inner : Inner
new_inner = record { state = disconnected; self_id = none; preferred_mode = none }

-- `build_error` is the error of the library that builds the HTTP client, if it cannot.
unfoldable pub new :
    Option String → String → String → String → ℕ → ℕ → Result (OfficialAdapter × Inner)
unfolding new_inner
new (some e) name url access_token connect_timeout api_timeout =
    err (http (concat ("failed to build HTTP client: " ∷ e ∷ [])))
new none name url access_token connect_timeout api_timeout = ok (
  record {
    name = name;
    url = url;
    access_token = access_token;
    connect_timeout = connect_timeout;
    api_timeout = api_timeout;
  },
  new_inner,
)

unfoldable pub from_backend_config :
    Option String → String → BackendConfig → Result (OfficialAdapter × Inner)
unfolding new
from_backend_config build_error name cfg =
    new build_error name cfg.url cfg.access_token cfg.connect_timeout cfg.api_timeout

abbrev has_mode : ApiPathMode → List ApiPathMode → Bool
has_mode m = any (λ n. mode_eq n m)

-- `if !modes.contains(&m) { modes.push(m) }`
abbrev push_new : ApiPathMode → List ApiPathMode → List ApiPathMode
push_new m modes = if has_mode m modes then modes else modes ++ m ∷ []

abbrev preferred_modes : Option ApiPathMode → List ApiPathMode
preferred_modes none = []
preferred_modes (some m) = m ∷ []

unfoldable pub modes_for : Bool → Option ApiPathMode → List ApiPathMode
modes_for has_placeholder preferred =
    let first = preferred_modes preferred in
    let with_template =
      if has_placeholder && not (has_mode template first) then first ++ template ∷ [] else first in
    push_new legacy_body (push_new direct_action (push_new api_prefixed with_template))

unfoldable pub candidate_modes : OfficialAdapter → Inner → List ApiPathMode
unfolding modes_for
candidate_modes a inner = modes_for (contains a.url "{action}") inner.preferred_mode

unfoldable pub build_action_url : OfficialAdapter → String → ApiPathMode → String
build_action_url a action template = replace a.url "{action}" action
build_action_url a action api_prefixed =
    let base = trim_end_matches b'/' a.url in
    if ends_with base "/api"
    then concat (base ∷ "/" ∷ action ∷ [])
    else concat (base ∷ "/api/" ∷ action ∷ [])
build_action_url a action direct_action = concat (trim_end_matches b'/' a.url ∷ "/" ∷ action ∷ [])
build_action_url a action legacy_body = trim_end_matches b'/' a.url

-- The errors of this file, all `GatewayError::Http` but the last.
abbrev call_failed : String → String → String → GatewayError
call_failed action status body = http (
    concat (
      "official API call failed: action="
      ∷ action
      ∷ ", status="
      ∷ status
      ∷ ", body="
      ∷ truncate 256 body
      ∷ []))

abbrev invalid_json : String → String → GatewayError
invalid_json action e = http (concat ("invalid JSON response for " ∷ action ∷ ": " ∷ e ∷ []))

abbrev request_failed : ApiPathMode → String → String → GatewayError
request_failed mode action e = http (
    concat (
      "official API request failed (mode="
      ∷ mode_text mode
      ∷ ", action="
      ∷ action
      ∷ "): "
      ∷ e
      ∷ []))

abbrev body_unread : String → String → GatewayError
body_unread action e =
    http (concat ("failed reading official API response body (action=" ∷ action ∷ "): " ∷ e ∷ []))

abbrev no_mode : OfficialAdapter → String → GatewayError
no_mode a action =
    http
      (concat ("official backend '" ∷ a.name ∷ "' request failed for action '" ∷ action ∷ "'" ∷ []))

abbrev pub not_connected : String → AdapterState → GatewayError
unfolding state_text
not_connected name state =
    connection
      (concat ("adapter '" ∷ name ∷ "' is not connected (state: " ∷ state_text state ∷ ")" ∷ []))

module _ {F : External} {W : Type 0} (J : JsonValue F.Value) (C : Client F W) where
  abbrev with_request_echo : Option F.Value → ApiResponse F → ApiResponse F
  with_request_echo echo resp = record resp { echo = or resp.echo echo }

  -- The response made of a JSON value that is not one.
  abbrev loose_response : F.Value → Option F.Value → ApiResponse F
  unfolding as_i32
  loose_response value echo = record {
    status = str_at J value "status" unwrap_or "ok";
    retcode = as_i32 (int_at J value "retcode" unwrap_or pos 0);
    payload = J.get value "data" unwrap_or value;
    message = str_at J value "message" unwrap_or "";
    echo = or (J.get value "echo") echo;
  }

  unfoldable pub parse_api_response :
      String → Bool → String → String → Option F.Value → Result (ApiResponse F)
  unfolding success with_echo loose_response
  parse_api_response action is_success status body echo =
      if not is_success
      then err (call_failed action status body)
      else if is_blank (codes body)
      then ok (with_echo echo (success J.null))
      else elim (C.as_response body) [
        | some resp ↦ ok (with_request_echo echo resp)
        | none ↦ elim (C.from_str body) [
          | inl e ↦ err (invalid_json action e)
          | inr value ↦ ok (loose_response value echo)
        ]
      ]

  abbrev finish_call : ApiPathMode → ApiRequest F → HttpReply → Result (ApiResponse F)
  unfolding parse_api_response
  finish_call mode request (send_failed e) = err (request_failed mode request.action e)
  finish_call mode request (body_failed e) = err (body_unread request.action e)
  finish_call mode request (replied is_success status body) =
      parse_api_response request.action is_success status body request.echo

  abbrev body_for : ApiPathMode → ApiRequest F → F.Value
  body_for legacy_body request = C.request_json request
  body_for _ request = request.params

  unfoldable pub call_with_mode :
      OfficialAdapter → ApiPathMode → ApiRequest F → W → Result (ApiResponse F) × W
  unfolding build_action_url finish_call
  call_with_mode a mode request w =
      let (reply, w') =
        C.post
          (record {
            url = build_action_url a request.action mode;
            bearer = if a.access_token == "" then none else some a.access_token;
            timeout = a.api_timeout;
            body = body_for mode request;
          })
          w in
      (finish_call mode request reply, w')

  -- The loop of `discover_and_call`.
  unfoldable pub try_modes :
      OfficialAdapter
      → ApiRequest F
      → List ApiPathMode
      → Option GatewayError
      → Inner × W
      → Result (ApiResponse F) × Inner × W
  unfolding call_with_mode
  try_modes a request [] last_error (inner, w) =
      (err (last_error unwrap_or no_mode a request.action), inner, w)
  try_modes a request (mode ∷ modes) last_error (inner, w) =
      let (result, w') = call_with_mode a mode request w in
      elim result [
        | ok resp ↦ (ok resp, record inner { preferred_mode = some mode }, w')
        | err e ↦ try_modes a request modes (some e) (inner, w')
      ]

  unfoldable pub discover_and_call :
      OfficialAdapter → ApiRequest F → Inner × W → Result (ApiResponse F) × Inner × W
  unfolding candidate_modes try_modes
  discover_and_call a request (inner, w) =
      try_modes a request (candidate_modes a inner) none (inner, w)

  unfoldable pub maybe_update_self_id : String → ApiResponse F → Inner → Inner
  maybe_update_self_id action response inner =
      if action == "get_login_info"
      then elim (int_at J response.payload "user_id") [
        | none ↦ inner
        | some self_id ↦ record inner { self_id = some self_id }
      ]
      else inner

  abbrev plain_request : String → ApiRequest F
  plain_request action = record {
    action = action;
    params = C.empty_object;
    echo = none;
    self_id = none;
  }

  abbrev probed_id : Result (ApiResponse F) → Option ℤ
  probed_id (ok resp) =
      if int_eq resp.retcode (pos 0) then int_at J resp.payload "user_id" else none
  probed_id (err e) = none

  unfoldable pub probe_backend : OfficialAdapter → Inner × W → Option ℤ × Inner × W
  unfolding discover_and_call
  probe_backend a s =
      let (result, inner, w) = discover_and_call a (plain_request "get_login_info") s in
      (probed_id result, inner, w)

  abbrev learn : Option ℤ → Inner → Inner
  learn none inner = inner
  learn (some self_id) inner = record inner { self_id = some self_id }

  unfoldable pub info : OfficialAdapter → Inner × W → AdapterInfo
  info a (inner, w) = record {
    name = a.name;
    backend_type = "official";
    url = a.url;
    state = inner.state;
    self_id = inner.self_id;
  }

  unfoldable pub connect : OfficialAdapter → Inner × W → Result (Unit {0}) × (Inner × W)
  unfolding probe_backend
  connect a (inner, w) =
      let (self_id, inner', w') = probe_backend a (record inner { state = connecting }, w) in
      (ok tt, (record (learn self_id inner') { state = connected }, w'))

  unfoldable pub disconnect : OfficialAdapter → Inner × W → Result (Unit {0}) × (Inner × W)
  disconnect a (inner, w) = (ok tt, (record inner { state = disconnected }, w))

  abbrev updated :
      String → Result (ApiResponse F) × Inner × W → Result (ApiResponse F) × (Inner × W)
  unfolding maybe_update_self_id
  updated action (ok resp, inner, w) = (ok resp, (maybe_update_self_id action resp inner, w))
  updated action (err e, inner, w) = (err e, (inner, w))

  unfoldable pub call_api :
      OfficialAdapter → ApiRequest F → Inner × W → Result (ApiResponse F) × (Inner × W)
  unfolding discover_and_call updated
  call_api a request (inner, w) =
      if is_connected inner.state
      then updated request.action (discover_and_call a request (inner, w))
      else (err (not_connected a.name inner.state), (inner, w))

  abbrev is_zero : Result (ApiResponse F) → Bool
  is_zero (ok resp) = int_eq resp.retcode (pos 0)
  is_zero (err e) = false

  unfoldable pub health_check : OfficialAdapter → Inner × W → Bool × (Inner × W)
  unfolding discover_and_call
  health_check a (inner, w) =
      if is_connected inner.state
      then (let (result, inner', w') =
            discover_and_call a (plain_request "get_status") (inner, w) in
          (is_zero result, (inner', w')))
      else (false, (inner, w))

  -- `impl BackendAdapter for OfficialAdapter`
  unfoldable pub as_adapter : OfficialAdapter → BackendAdapter F (Inner × W)
  unfolding info connect disconnect call_api health_check
  as_adapter a = record {
    info = info a;
    connect = connect a;
    disconnect = disconnect a;
    call_api = call_api a;
    health_check = health_check a;
  }
