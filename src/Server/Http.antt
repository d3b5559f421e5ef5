-- ===== src/Server/Http.antt =====
-- crates/ferroq-gateway/src/server/onebot_v11.rs: who may call, and what a call does.
use mathlib.Core.Path.{subst}
use ferroq.Prelude.{
  ◌≡◌, refl, sym, ap, ◌∙◌, ◌↔◌, ◌⊎◌, inl, inr, String, true, false, Option, none, some, [], ◌∷◌,
  ◌++◌, is_empty, get_elem?, arith, Option-cases, Bool-cases,
}
use ferroq.Prelude.Int.{pos}
use ferroq.Core.External.{External}
use ferroq.Core.Error.{GatewayError, error_text, Result, ok, err}
use ferroq.Core.Api.{ApiRequest, ApiResponse, fail}
use ferroq.Core.Adapter.{BackendAdapter}
use ferroq.Middleware.Text.{Text, bytes, eq_Text, text_eq_iff, strip_prefix, strip_prefix_iff}
use ferroq.Middleware.Auth.{access_token, and_eq}
use ferroq.Router.{route_named, target, with_name}
use ferroq.Router.Valid.{IsValid, route_named-IsValid}
use ferroq.Stats.{record_api_call_for}
use ferroq.Server.{
  ServerState, Response, unauthorized, json, check_access_token, header_token, scheme_token,
  handle_http_api, answer, respond, as_json,
}

abbrev pub request_of :
    {F : External} → F.Value → (Text → Option F.Value) → String → Text → ApiRequest F
request_of null from_str action body = record {
  action = action;
  params = elim (from_str body) [ some v ↦ v | none ↦ null ];
  echo = none;
  self_id = none;
}

module _ {F : External} {W : Type 0} (null : F.Value) where
  -- What a caller sees of the answer of the adapter of this name, and what is counted.
  abbrev pub Answered :
      ServerState F W
      → String
      → Result (ApiResponse F) × W
      → Response F × ServerState F W × W
      → Type 0
  Answered state name answer_of r =
      (r.2 ≡ answer_of.1)
      × (((response : ApiResponse F) × (answer_of.0 ≡ ok response)
            × (r.0 ≡ json response)
            × (r.1.stats ≡ record_api_call_for state.stats name))
          ⊎ ((e : GatewayError) × (answer_of.0 ≡ err e)
              × (r.0 ≡ json (fail null (pos 1400) (error_text e)))
              × (r.1.stats ≡ state.stats)))

  respond-Answered :
      (state : ServerState F W) (name : String) (r : Result (ApiResponse F) × W)
      → Answered state name r
          (as_json {F = F} {W = W} (respond {F = F} {W = W} null state (with_name name r)))
  unfolding respond
  respond-Answered state name (ok response, w) = (refl, inl (response, refl, refl, refl))
  respond-Answered state name (err e, w) = (refl, inr (e, refl, refl, refl))

  authenticated :
      (from_str : Text → Option F.Value) (state : ServerState F W) (action : String)
      (query : Option Text) (header : Option (Option Text)) (body : Text) (w : W)
      → check_access_token (access_token state.shared_config) header query ≡ true
      → handle_http_api {F = F} null from_str state action query header body w
        ≡ as_json (
            respond {F = F} {W = W} null state
              (route_named state.router (request_of {F = F} null from_str action body) w))
  unfolding handle_http_api answer
  authenticated from_str state action query header body w h = rw (h, handle_http_api, answer) refl

  -- A request that is not authenticated is refused and changes nothing. An authenticated one is sent,
  -- with a router that is in order and has adapters, to exactly one adapter, the one at the target
  -- index: the caller gets its answer and the call is counted under its name, or gets the text of its
  -- error with code 1400 and nothing is counted.
  pub handle_http_api_lem :
      (from_str : Text → Option F.Value) (state : ServerState F W) (action : String)
      (query : Option Text) (header : Option (Option Text)) (body : Text) (w : W)
      → IsValid state.router
      → is_empty state.router.adapters ≡ false
      → ((check_access_token (access_token state.shared_config) header query ≡ false)
          × (handle_http_api {F = F} null from_str state action query header body w
              ≡ (unauthorized, state, w)))
        ⊎ ((check_access_token (access_token state.shared_config) header query ≡ true)
            × ((a : BackendAdapter F W) × (get_elem? state.router.adapters
                    (target state.router none)
                  ≡ some a)
                × Answered state
                    (a.info w).name
                    (a.call_api (request_of null from_str action body) w)
                    (handle_http_api {F = F} null from_str state action query header body w)))
  unfolding handle_http_api answer
  handle_http_api_lem from_str state action query header body w v some_adapter =
      elim (Bool-cases (check_access_token (access_token state.shared_config) header query)) [
        | inr refused ↦ inl (refused, rw (refused, handle_http_api) refl)
        | inl yes_it ↦
            let request = request_of null from_str action body in
            let (a, found, routed) = route_named-IsValid state.router request w v some_adapter in
            inr (
              yes_it,
              (
                a,
                found,
                subst (Answered state (a.info w).name (a.call_api request w))
                    (sym (
                      authenticated from_str state action query header body w yes_it
                      ∙ ap (λ r. as_json (respond {F = F} {W = W} null state r)) routed))
                    (respond-Answered state (a.info w).name (a.call_api request w)),
              ),
            )
      ]

empty_iff : (token : Text) → (is_empty token ≡ true) ↔ (token ≡ [])
empty_iff [] = ground arith
empty_iff (b ∷ token) = ground arith

and_eq_iff : (token : Text) (o : Option Text) → (and_eq token o ≡ true) ↔ (o ≡ some token)
and_eq_iff token none = ground arith
and_eq_iff token (some t) = ground (arith, text_eq_iff t token)

scheme_token_iff :
    (token auth : Text)
    → (scheme_token auth ≡ some token)
      ↔ ((auth ≡ bytes "Bearer " ++ token) ⊎ (auth ≡ bytes "Token " ++ token))
unfolding scheme_token
scheme_token_iff token auth = elim (Option-cases (strip_prefix (bytes "Bearer ") auth)) [
  | inl e ↦ rw (e) ground (
    arith,
    strip_prefix_iff (bytes "Bearer ") auth token,
    strip_prefix_iff (bytes "Token ") auth token,
  )
  | inr (t, e) ↦ rw (e) ground (
    arith,
    strip_prefix_iff (bytes "Bearer ") auth token,
    strip_prefix_iff (bytes "Bearer ") auth t,
    text_eq_iff t token,
  )
]

header_token_iff :
    (token : Text) (header : Option (Option Text))
    → (header_token header ≡ some token) ↔ (
        (header ≡ some (some (bytes "Bearer " ++ token)))
        ⊎ (header ≡ some (some (bytes "Token " ++ token))))
unfolding header_token
header_token_iff token none = ground arith
header_token_iff token (some none) = ground arith
header_token_iff token (some (some auth)) = ground (arith, scheme_token_iff token auth)

-- A request is authenticated exactly if no token is configured, or the header is the token behind
-- "Bearer " or "Token ", or the query parameter is the token.
pub check_access_token-true_iff :
    (token : Text) (header : Option (Option Text)) (query : Option Text)
    → (check_access_token token header query ≡ true) ↔ (
        (token ≡ [])
        ⊎ ((header ≡ some (some (bytes "Bearer " ++ token)))
            ⊎ ((header ≡ some (some (bytes "Token " ++ token))) ⊎ (query ≡ some token))))
unfolding check_access_token
check_access_token-true_iff token header query = ground (
  arith,
  empty_iff token,
  and_eq_iff token (header_token header),
  header_token_iff token header,
  and_eq_iff token query,
)
