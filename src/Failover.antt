-- ===== src/Failover.antt =====
-- crates/ferroq-gateway/src/adapter/failover.rs: an adapter made of a primary and a fallback.
pub mod Laws
use Prim.Native.String.{◌++◌}
use ferroq.Prelude.{String, Bool, true, false, ◌||◌, Option, none, some, if◌then◌else◌}
use ferroq.Core.External.{External}
use ferroq.Core.Error.{GatewayError, connection, web_socket, Result, ok, err, is_ok}
use ferroq.Core.Api.{ApiRequest, ApiResponse}
use ferroq.Core.Adapter.{AdapterInfo, BackendAdapter, connected, is_connected}

pub record FailoverAdapter (F : External) (W : Type 0) : Type 0 where
  pub name : String
  pub primary : BackendAdapter F W
  pub fallback : BackendAdapter F W

unfoldable pub is_connection_error : GatewayError → Bool
is_connection_error (connection _) = true
is_connection_error (web_socket _) = true
is_connection_error _ = false

-- `Option::or`, `Result::and`
abbrev pub or {ℓ} : {A : Type ℓ} → Option A → Option A → Option A
or (some a) b = some a
or none b = b

abbrev pub and {ℓ} : {A : Type ℓ} → Result A → Result A → Result A
and (ok a) b = b
and (err e) b = err e

module _ {F : External} {W : Type 0} where
  unfoldable pub info : FailoverAdapter F W → W → AdapterInfo
  info a w =
      let primary_info = a.primary.info w in
      let fallback_info = a.fallback.info w in
      record {
        name = a.name;
        backend_type = primary_info.backend_type ++ "+" ++ fallback_info.backend_type;
        url = primary_info.url;
        state =
            if is_connected primary_info.state || is_connected fallback_info.state
            then connected
            else primary_info.state;
        self_id = or primary_info.self_id fallback_info.self_id;
      }

  unfoldable pub connect : FailoverAdapter F W → W → Result (Unit {0}) × W
  connect a w =
      let (primary_result, w₁) = a.primary.connect w in
      let (fallback_result, w₂) = a.fallback.connect w₁ in
      (if is_ok primary_result || is_ok fallback_result then ok tt else primary_result, w₂)

  unfoldable pub disconnect : FailoverAdapter F W → W → Result (Unit {0}) × W
  disconnect a w =
      let (r₁, w₁) = a.primary.disconnect w in
      let (r₂, w₂) = a.fallback.disconnect w₁ in (and r₁ r₂, w₂)

  -- What `call_api` makes of the primary's answer.
  unfoldable pub retry :
      FailoverAdapter F W → ApiRequest F → Result (ApiResponse F) → W → Result (ApiResponse F) × W
  unfolding is_connection_error
  retry a request (ok resp) w = (ok resp, w)
  retry a request (err e) w =
      if is_connection_error e then a.fallback.call_api request w else (err e, w)

  unfoldable pub call_api : FailoverAdapter F W → ApiRequest F → W → Result (ApiResponse F) × W
  unfolding retry
  call_api a request w =
      let (result, w') = a.primary.call_api request w in retry a request result w'

  unfoldable pub health_check : FailoverAdapter F W → W → Bool × W
  health_check a w =
      let (primary_ok, w₁) = a.primary.health_check w in
      if primary_ok then (true, w₁) else a.fallback.health_check w₁

  -- `impl BackendAdapter for FailoverAdapter`
  unfoldable as_adapter : FailoverAdapter F W → BackendAdapter F W
  unfolding info connect disconnect call_api health_check
  as_adapter a = record {
    info = info a;
    connect = connect a;
    disconnect = disconnect a;
    call_api = call_api a;
    health_check = health_check a;
  }
