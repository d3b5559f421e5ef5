-- ===== src/Core/Adapter.antt =====
-- crates/ferroq-core/src/adapter.rs: backend adapters. An `Arc<dyn BackendAdapter>` is a record of
-- its methods. What a method changes behind the `&self` (the adapter's own locks, the backend at
-- the other end, the event channel) is a value of the type `W`, which every method takes and
-- gives back; the event channel is part of it, so `connect` takes no sender.
use ferroq.Prelude.{String, Bool, true, false, Option}
use ferroq.Prelude.Int.{ℤ}
use ferroq.Core.External.{External}
use ferroq.Core.Error.{Result}
use ferroq.Core.Api.{ApiRequest, ApiResponse}

pub data AdapterState : Type 0 where
  disconnected connecting connected reconnecting failed : AdapterState

-- `impl Display for AdapterState`
unfoldable pub state_text : AdapterState → String
state_text disconnected = "disconnected"
state_text connecting = "connecting"
state_text connected = "connected"
state_text reconnecting = "reconnecting"
state_text failed = "failed"

-- `state == AdapterState::Connected`
abbrev pub is_connected : AdapterState → Bool
is_connected connected = true
is_connected _ = false

pub record AdapterInfo : Type 0 where
  pub name : String
  pub backend_type : String
  pub url : String
  pub state : AdapterState
  pub self_id : Option ℤ

pub record BackendAdapter (F : External) (W : Type 0) : Type 0 where
  pub info : W → AdapterInfo
  pub connect : W → Result (Unit {0}) × W
  pub disconnect : W → Result (Unit {0}) × W
  pub call_api : ApiRequest F → W → Result (ApiResponse F) × W
  pub health_check : W → Bool × W
