-- ===== src/Server/OnebotV12/Actions.antt =====
-- crates/ferroq-gateway/src/server/onebot_v12.rs: what a client gets for an action, and with which
-- echo.
use Prim.Native.String.{◌++◌ as str_append}
use mathlib.Core.Path.{subst}
use ferroq.Prelude.{
  ◌≡◌, refl, sym, ap, ◌∙◌, ◌⊎◌, inl, inr, String, true, false, Option, none, some, is_empty,
  get_elem?, Bool-cases,
}
use ferroq.Prelude.Int.{pos}
use ferroq.Core.External.{External}
use ferroq.Core.Error.{GatewayError, error_text, Result, Result-cases, ok, err}
use ferroq.Core.Api.{ApiRequest, ApiResponse}
use ferroq.Core.Adapter.{BackendAdapter}
use ferroq.Core.Json.{JsonValue, ◌unwrap_or◌, str_at}
use ferroq.Core.Json.Build.{JsonBuild}
use ferroq.Router.{route_named, target, with_name}
use ferroq.Router.Valid.{IsValid, route_named-IsValid}
use ferroq.Stats.{record_api_call_for}
use ferroq.OnebotV12.{parse_v12_action, translate_v11_response}
use ferroq.Server.{ServerState}
use ferroq.Middleware.Text.{Text}
use ferroq.Middleware.Auth.{access_token}
use ferroq.Server.OnebotV12.{
  answer_v12, run_action, v12_error_response, check_v12_token, handle_http_action, unauthorized,
  json, as_reply,
}

read-cases :
    {V : Type 0} (o : String ⊎ V) → ((e : String) × (o ≡ inl e)) ⊎ ((raw : V) × (o ≡ inr raw))
read-cases (inl e) = inl (e, refl)
read-cases (inr raw) = inr (raw, refl)

module _ {F : External} {W : Type 0} {J : JsonValue F.Value} (B : JsonBuild J)
    (to_text : F.Value → String) where
  -- What comes of the answer of the adapter of this name: the reply, its echo, and what is counted.
  abbrev pub Replied :
      ServerState F W
      → String
      → String
      → Option F.Value
      → Result (ApiResponse F) × W
      → F.Value × ServerState F W × W
      → Type 0
  Replied state name action echo answer r =
      (r.2 ≡ answer.1)
      × (((resp : ApiResponse F) × (answer.0 ≡ ok resp)
            × (r.0 ≡ translate_v11_response B to_text action resp)
            × (J.get r.0 "echo" ≡ some (resp.echo unwrap_or J.null))
            × (r.1.stats ≡ record_api_call_for state.stats name))
          ⊎ ((e : GatewayError) × (answer.0 ≡ err e)
              × (r.0 ≡ v12_error_response B (pos 20002) (error_text e) echo)
              × (J.get r.0 "echo" ≡ some (echo unwrap_or J.null))
              × (r.1 ≡ state)))

  answer-Replied :
      (state : ServerState F W) (name action : String) (echo : Option F.Value)
      (r : Result (ApiResponse F) × W)
      → Replied state name action echo r
          (answer_v12 {F = F} B to_text state action echo (with_name name r))
  unfolding answer_v12 translate_v11_response v12_error_response
  answer-Replied state name action echo (ok resp, w) =
      (refl, inl (resp, refl, refl, B.get-object _ "echo", refl))
  answer-Replied state name action echo (err e, w) =
      (refl, inr (e, refl, refl, B.get-object _ "echo", refl))

  -- What comes of an action that was read: it is none, or one adapter answers.
  abbrev pub Acted : ServerState F W → F.Value → W → F.Value × ServerState F W × W → Type 0
  Acted state raw w r =
      ((e : GatewayError) × (parse_v12_action {F = F} B raw ≡ err e)
        × (r ≡ (v12_error_response B (pos 10001) (error_text e) (J.get raw "echo"), state, w)))
      ⊎ ((request : ApiRequest F) × (parse_v12_action {F = F} B raw ≡ ok request)
          × (a : BackendAdapter F W) × (get_elem? state.router.adapters
                (target state.router request.self_id)
              ≡ some a)
          × Replied state (a.info w).name (str_at J raw "action" unwrap_or "") (J.get raw "echo")
              (a.call_api request w) r)

  read_action :
      (state : ServerState F W) (action : String) (echo : Option F.Value) (raw : F.Value) (w : W)
      (request : ApiRequest F)
      → parse_v12_action {F = F} B raw ≡ ok request
      → run_action {F = F} B to_text state action echo raw w
        ≡ answer_v12 {F = F} B to_text state action echo (route_named state.router request w)
  unfolding run_action
  read_action state action echo raw w request e = rw (e, run_action) refl

  unread_action :
      (state : ServerState F W) (action : String) (echo : Option F.Value) (raw : F.Value) (w : W)
      (e : GatewayError)
      → parse_v12_action {F = F} B raw ≡ err e
      → run_action {F = F} B to_text state action echo raw w
        ≡ (v12_error_response B (pos 10001) (error_text e) echo, state, w)
  unfolding run_action
  unread_action state action echo raw w e' e = rw (e, run_action) refl

  run_action-Acted :
      (state : ServerState F W) (raw : F.Value) (w : W)
      → IsValid state.router
      → is_empty state.router.adapters ≡ false
      → Acted state raw w (
          run_action {F = F} B to_text state
            (str_at J raw "action" unwrap_or "")
            (J.get raw "echo")
            raw
            w)
  run_action-Acted state raw w v some_adapter =
      let action = str_at J raw "action" unwrap_or "" in
      let echo = J.get raw "echo" in
      elim (Result-cases (parse_v12_action {F = F} B raw)) [
        | inr (e', e) ↦ inl (e', e, unread_action state action echo raw w e' e)
        | inl (request, e) ↦
            let (a, found, routed) = route_named-IsValid state.router request w v some_adapter in
            let acted =
              read_action state action echo raw w request e
              ∙ ap (answer_v12 {F = F} {W = W} B to_text state action echo) routed in
            inr (
              request,
              e,
              a,
              found,
              subst (Replied state (a.info w).name action echo (a.call_api request w)) (sym acted)
                  (answer-Replied state (a.info w).name action echo (a.call_api request w)),
            )
      ]

  -- A request that is not authenticated is refused, and a body that is no JSON is an error with the
  -- code 10001, and both change nothing. Otherwise, with a router that is in order and has
  -- adapters, an action that cannot be read is such an error too, and any other is sent to exactly
  -- one adapter, the one at the target index for its account: the client gets its answer with the
  -- echo of the answer, and the call is counted, or its error with the code 20002 and the echo of
  -- the request.
  pub handle_http_action_lem :
      (from_str : Text → String ⊎ F.Value) (state : ServerState F W) (query : Option Text)
      (header : Option (Option Text)) (body : Text) (w : W)
      → IsValid state.router
      → is_empty state.router.adapters ≡ false
      → ((check_v12_token (access_token state.shared_config) header query ≡ false)
          × (handle_http_action {F = F} B to_text from_str state query header body w
              ≡ (unauthorized, state, w)))
        ⊎ ((check_v12_token (access_token state.shared_config) header query ≡ true)
            × (((e : String) × (from_str body ≡ inl e)
                  × (handle_http_action {F = F} B to_text from_str state query header body w ≡ (
                    json (v12_error_response B (pos 10001) (str_append "invalid request: " e) none),
                    state,
                    w,
                  )))
                ⊎ ((raw : F.Value) × (from_str body ≡ inr raw)
                    × (r : F.Value × ServerState F W × W) × (handle_http_action {F = F} B to_text
                          from_str state query header body w
                        ≡ as_reply {F = F} B to_text r)
                    × Acted state raw w r)))
  unfolding handle_http_action
  handle_http_action_lem from_str state query header body w v some_adapter =
      elim (Bool-cases (check_v12_token (access_token state.shared_config) header query)) [
        | inr refused ↦ inl (refused, rw (refused, handle_http_action) refl)
        | inl passed ↦ inr (
          passed,
          elim (read-cases (from_str body)) [
            | inl (e', e) ↦ inl (e', e, rw (passed, e, handle_http_action) refl)
            | inr (raw, e) ↦ inr (
              raw,
              e,
              _,
              rw (passed, e, handle_http_action) refl,
              run_action-Acted state raw w v some_adapter,
            )
          ],
        )
      ]
