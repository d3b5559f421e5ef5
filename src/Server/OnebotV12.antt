-- ===== src/Server/OnebotV12.antt =====
-- crates/ferroq-gateway/src/server/onebot_v12.rs: the token check and the HTTP handlers of the
-- OneBot v12 server. Its WebSocket connection answers a request in the same way, and otherwise
-- works as that of Server/Connection.
pub mod Actions
use Prim.Native.String.{◌++◌ as str_append}
use ferroq.Prelude.{
  String, Bool, true, false, ◌||◌, Option, none, some, List, [], ◌∷◌, ◌⊎◌, inl, inr, is_empty,
  if◌then◌else◌,
}
use ferroq.Prelude.Int.{ℤ, pos}
use ferroq.Core.External.{External}
use ferroq.Core.Error.{GatewayError, error_text, Result, ok, err}
use ferroq.Core.Api.{ApiRequest, ApiResponse}
use ferroq.Core.Json.{JsonValue, ◌unwrap_or◌, str_at}
use ferroq.Core.Json.Build.{JsonBuild}
use ferroq.Middleware.Text.{Text, bytes, strip_prefix}
use ferroq.Middleware.Auth.{access_token, and_eq}
use ferroq.Router.{route_named}
use ferroq.Stats.{record_api_call_for}
use ferroq.OnebotV12.{parse_v12_action, translate_v11_response}
use ferroq.Server.{ServerState}

-- `headers.get("Authorization").and_then(to_str)`, behind "Bearer ".
abbrev pub bearer : Option (Option Text) → Option Text
unfolding strip_prefix
bearer (some (some auth)) = strip_prefix (bytes "Bearer ") auth
bearer (some none) = none
bearer none = none

unfoldable pub check_v12_token : Text → Option (Option Text) → Option Text → Bool
unfolding bearer
check_v12_token token header query =
    if is_empty token then true else and_eq token (bearer header) || and_eq token query

pub data V12Response (V : Type 0) : Type 0 where
  unauthorized : V12Response V
  json : V → V12Response V

module _ {V : Type 0} {J : JsonValue V} (B : JsonBuild J) where
  unfoldable pub v12_error_response : ℤ → String → Option V → V
  v12_error_response retcode message echo = B.object (
      ("status", B.text "failed")
      ∷ ("retcode", B.integer retcode)
      ∷ ("data", J.null)
      ∷ ("message", B.text message)
      ∷ ("echo", echo unwrap_or J.null)
      ∷ [])

module _ {F : External} {W : Type 0} {J : JsonValue F.Value} (B : JsonBuild J)
    (to_text : F.Value → String) where
  -- What the server makes of the router's result, for the action and the echo of the client.
  abbrev pub answer_v12 :
      ServerState F W
      → String
      → Option F.Value
      → Result (ApiResponse F × String) × W
      → F.Value × ServerState F W × W
  unfolding record_api_call_for error_text translate_v11_response v12_error_response
  answer_v12 state action echo (ok (resp, adapter_name), w) = (
    translate_v11_response B to_text action resp,
    record state { stats = record_api_call_for state.stats adapter_name },
    w,
  )
  answer_v12 state action echo (err e, w) =
      (v12_error_response B (pos 20002) (error_text e) echo, state, w)

  -- An action, translated and sent to an adapter.
  unfoldable pub run_action :
      ServerState F W → String → Option F.Value → F.Value → W → F.Value × ServerState F W × W
  unfolding parse_v12_action route_named answer_v12 v12_error_response error_text
  run_action state action echo raw w = elim (parse_v12_action {F = F} B raw) [
    | err e ↦ (v12_error_response B (pos 10001) (error_text e) echo, state, w)
    | ok request ↦ answer_v12 state action echo (route_named state.router request w)
  ]

  abbrev pub as_reply : F.Value × ServerState F W × W → V12Response F.Value × ServerState F W × W
  as_reply (v, state, w) = (json v, state, w)

  -- `from_str` reads the body as JSON.
  unfoldable pub handle_http_action :
      (Text → String ⊎ F.Value)
      → ServerState F W
      → Option Text
      → Option (Option Text)
      → Text
      → W
      → V12Response F.Value × ServerState F W × W
  unfolding check_v12_token access_token run_action v12_error_response
  handle_http_action from_str state query header body w =
      if check_v12_token (access_token state.shared_config) header query
      then elim (from_str body) [
        | inl e ↦ (
          json (v12_error_response B (pos 10001) (str_append "invalid request: " e) none),
          state,
          w,
        )
        | inr raw ↦
            as_reply
              (run_action state (str_at J raw "action" unwrap_or "") (J.get raw "echo") raw w)
      ]
      else (unauthorized, state, w)

  -- The body is the parameters; a body that is no JSON is `Value::Null`.
  unfoldable pub handle_http_action_named :
      (Text → String ⊎ F.Value)
      → ServerState F W
      → String
      → Option Text
      → Option (Option Text)
      → Text
      → W
      → V12Response F.Value × ServerState F W × W
  unfolding check_v12_token access_token run_action
  handle_http_action_named from_str state action query header body w =
      if check_v12_token (access_token state.shared_config) header query
      then (let params : F.Value = elim (from_str body) [ inl e ↦ J.null | inr v ↦ v ] in
          let raw = B.object (("action", B.text action) ∷ ("params", params) ∷ []) in
          as_reply (run_action state action (J.get params "echo") raw w))
      else (unauthorized, state, w)
