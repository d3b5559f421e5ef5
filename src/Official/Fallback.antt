-- ===== src/Official/Fallback.antt =====
-- crates/ferroq-gateway/src/adapter/official.rs within a pair of
-- crates/ferroq-gateway/src/adapter/failover.rs.
use mathlib.Core.Path.{subst}
use ferroq.Prelude.{
  ◌≡◌, refl, sym, ap, inl, inr, String, Bool, Option, none, some, List, [], ◌∷◌, arith,
  if◌then◌else◌,
}
use ferroq.Core.External.{External}
use ferroq.Core.Json.{JsonValue}
use ferroq.Core.Error.{GatewayError, http, Result, ok, err, Result-cases}
use ferroq.Core.Api.{ApiRequest, ApiResponse}
use ferroq.Core.Adapter.{BackendAdapter, connected, is_connected}
use ferroq.Failover
use ferroq.Failover.{FailoverAdapter, is_connection_error}
use ferroq.Official.Calls.{try_modes-ok, try_modes-err}
use ferroq.Official.{
  candidate_modes, not_connected, ApiPathMode, Inner, OfficialAdapter, HttpReply, send_failed,
  body_failed, replied, Client, parse_api_response, finish_call, call_with_mode, try_modes,
  discover_and_call, call_api, as_adapter, updated,
}

-- The result is an answer or a `GatewayError::Http`.
abbrev pub OkOrHttp {ℓ} : {A : Type ℓ} → Result A → Type 0
OkOrHttp (ok a) = Unit
OkOrHttp (err (http text)) = Unit
OkOrHttp (err _) = ⊥

module _ {F : External} {W : Type 0} (J : JsonValue F.Value) (C : Client F W) where
  parse_api_response-OkOrHttp :
      (action : String) (is_success : Bool) (status body : String) (echo : Option F.Value)
      → OkOrHttp (parse_api_response {F = F} J C action is_success status body echo)
  unfolding parse_api_response
  parse_api_response-OkOrHttp action is_success status body echo = ground arith

  finish_call-OkOrHttp :
      (m : ApiPathMode) (request : ApiRequest F) (reply : HttpReply)
      → OkOrHttp (finish_call {F = F} J C m request reply)
  unfolding finish_call
  finish_call-OkOrHttp m request (send_failed e) = tt
  finish_call-OkOrHttp m request (body_failed e) = tt
  finish_call-OkOrHttp m request (replied is_success status body) =
      parse_api_response-OkOrHttp request.action is_success status body request.echo

  call_with_mode-OkOrHttp :
      (a : OfficialAdapter) (m : ApiPathMode) (request : ApiRequest F) (w : W)
      → OkOrHttp (call_with_mode {F = F} J C a m request w).0
  unfolding call_with_mode
  call_with_mode-OkOrHttp a m request w = finish_call-OkOrHttp m request (C.post _ w).0

  abbrev LastHttp : OfficialAdapter → ApiRequest F → Option GatewayError → Type 0
  LastHttp a request none = Unit
  LastHttp a request (some e) = OkOrHttp {A = ApiResponse F} (err e)

  try_modes-OkOrHttp :
      (a : OfficialAdapter) (request : ApiRequest F) (modes : List ApiPathMode)
      (last : Option GatewayError) (inner : Inner) (w : W)
      → LastHttp a request last
      → OkOrHttp (try_modes {F = F} J C a request modes last (inner, w)).0
  unfolding try_modes
  try_modes-OkOrHttp a request [] none inner w h = tt
  try_modes-OkOrHttp a request [] (some e) inner w h = h
  try_modes-OkOrHttp a request (m ∷ modes) last inner w h =
      let law = call_with_mode-OkOrHttp a m request w in
      elim (Result-cases (call_with_mode {F = F} J C a m request w).0) [
        | inl (resp, answered) ↦
            subst (λ r. OkOrHttp r.0)
              (sym (try_modes-ok J C a request m modes last inner w resp answered)) tt
        | inr (e, fails) ↦
            subst (λ r. OkOrHttp r.0)
              (sym (try_modes-err J C a request m modes last inner w e fails))
              (try_modes-OkOrHttp a request modes (some e) inner
                (call_with_mode {F = F} J C a m request w).1 (subst OkOrHttp fails law))
      ]

  updated-OkOrHttp :
      (action : String) (r : Result (ApiResponse F) × Inner × W)
      → OkOrHttp r.0
      → OkOrHttp (updated {F = F} J C action r).0
  unfolding updated
  updated-OkOrHttp action (ok resp, i, w) h = tt
  updated-OkOrHttp action (err e, i, w) h = h

  call_api-OkOrHttp :
      (a : OfficialAdapter) (request : ApiRequest F) (inner : Inner) (w : W)
      → inner.state ≡ connected
      → OkOrHttp (call_api {F = F} J C a request (inner, w)).0
  unfolding call_api discover_and_call
  call_api-OkOrHttp a request inner w h =
      subst
        (λ b.
          OkOrHttp
            (if b
              then updated {F = F} J C request.action
                  (discover_and_call {F = F} J C a request (inner, w))
              else (err (not_connected a.name inner.state), (inner, w))).0)
        (sym (ap is_connected h))
        (updated-OkOrHttp request.action (discover_and_call {F = F} J C a request (inner, w))
          (try_modes-OkOrHttp a request (candidate_modes a inner) none inner w tt))

  retry-OkOrHttp :
      {V : Type 0} (p : FailoverAdapter F V) (request : ApiRequest F) (r : Result (ApiResponse F))
      (v : V)
      → OkOrHttp r
      → Failover.retry p request r v ≡ (r, v)
  unfolding Failover.retry is_connection_error
  retry-OkOrHttp p request (ok resp) v h = refl
  retry-OkOrHttp p request (err e) v h = ground arith

  -- A pair whose primary is a connected official adapter never asks the fallback, whatever comes of
  -- the call: it is the primary alone.
  pub no_failover :
      (a : OfficialAdapter) (name : String) (fallback : BackendAdapter F (Inner × W))
      (request : ApiRequest F) (inner : Inner) (w : W)
      → inner.state ≡ connected
      → Failover.call_api
          (record { name = name; primary = as_adapter J C a; fallback = fallback })
          request
          (inner, w)
        ≡ call_api J C a request (inner, w)
  unfolding Failover.call_api as_adapter
  no_failover a name fallback request inner w h =
      retry-OkOrHttp (record { name = name; primary = as_adapter J C a; fallback = fallback })
        request (call_api J C a request (inner, w)).0 (call_api J C a request (inner, w)).1
        (call_api-OkOrHttp a request inner w h)
