-- ===== src/Server.antt =====
-- crates/ferroq-gateway/src/server/onebot_v11.rs: the token check and the HTTP handlers of the OneBot v11
-- server, over the router and the counters. A header and a query are as in middleware.rs, except
-- that the query parameter is given as axum decodes it.
pub mod Http
pub mod Connection
pub mod Reverse
pub mod Satori
pub mod OnebotV12
use Prim.Native.String.{◌++◌}
use ferroq.Prelude.{
  ℕ, String, Bool, true, false, ◌||◌, Option, none, some, List, [], ◌∷◌, ◌⊎◌, inl, inr, ◌==◌,
  is_empty, if◌then◌else◌,
}
use ferroq.Prelude.Int.{ℤ, pos}
use ferroq.Core.External.{External}
use ferroq.Core.Error.{GatewayError, error_text, Result, ok, err}
use ferroq.Core.Api.{ApiRequest, ApiResponse, fail}
use ferroq.Middleware.Text.{Text, bytes, eq_Text, strip_prefix}
use ferroq.Middleware.Auth.{SharedConfig, access_token, and_eq}
use ferroq.Router.{ApiRouter, route_named}
use ferroq.Stats.{RuntimeStats, record_api_call_for}

pub record ServerState (F : External) (W : Type 0) : Type 0 where
  pub router : ApiRouter F W
  pub shared_config : SharedConfig
  pub stats : RuntimeStats

-- `strip_prefix("Bearer ").or_else(|| strip_prefix("Token "))`
unfoldable pub scheme_token : Text → Option Text
unfolding strip_prefix
scheme_token auth = elim (strip_prefix (bytes "Bearer ") auth) [
  | some t ↦ some t
  | none ↦ strip_prefix (bytes "Token ") auth
]

unfoldable pub header_token : Option (Option Text) → Option Text
unfolding scheme_token
header_token (some (some auth)) = scheme_token auth
header_token (some none) = none
header_token none = none

-- Whether the check finds the request authenticated.
unfoldable pub check_access_token : Text → Option (Option Text) → Option Text → Bool
unfolding header_token
check_access_token token header query =
    if is_empty token then true else and_eq token (header_token header) || and_eq token query

pub data Response (F : External) : Type 0 where
  unauthorized : Response F
  json : ApiResponse F → Response F

abbrev pub as_json :
    {F : External} {W : Type 0}
    → ApiResponse F × ServerState F W × W
    → Response F × ServerState F W × W
as_json (resp, state, w) = (json resp, state, w)

module _ {F : External} {W : Type 0} (null : F.Value) where
  -- What a handler makes of the router's result.
  abbrev pub respond :
      ServerState F W → Result (ApiResponse F × String) × W → ApiResponse F × ServerState F W × W
  unfolding record_api_call_for error_text fail
  respond state (ok (resp, adapter_name), w) =
      (resp, record state { stats = record_api_call_for state.stats adapter_name }, w)
  respond state (err e, w) = (fail null (pos 1400) (error_text e), state, w)

  unfoldable pub answer : ServerState F W → ApiRequest F → W → ApiResponse F × ServerState F W × W
  unfolding route_named respond
  answer state request w = respond state (route_named state.router request w)

  -- `from_str` reads the body as JSON.
  unfoldable pub handle_http_api :
      (Text → Option F.Value)
      → ServerState F W
      → String
      → Option Text
      → Option (Option Text)
      → Text
      → W
      → Response F × ServerState F W × W
  unfolding check_access_token access_token answer
  handle_http_api from_str state action query header body w =
      if check_access_token (access_token state.shared_config) header query
      then as_json (
          answer state
            (record {
              action = action;
              params = elim (from_str body) [ some v ↦ v | none ↦ null ];
              echo = none;
              self_id = none;
            })
            w)
      else (unauthorized, state, w)

  unfoldable pub handle_http_api_legacy :
      (Text → String ⊎ ApiRequest F)
      → ServerState F W
      → Option Text
      → Option (Option Text)
      → Text
      → W
      → Response F × ServerState F W × W
  unfolding check_access_token access_token answer fail
  handle_http_api_legacy from_str state query header body w =
      if check_access_token (access_token state.shared_config) header query
      then elim (from_str body) [
        | inl e ↦ (json (fail null (pos 1400) ("invalid request: " ++ e)), state, w)
        | inr request ↦ as_json (answer state request w)
      ]
      else (unauthorized, state, w)
