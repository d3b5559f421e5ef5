-- ===== src/Lagrange/Call.antt =====
-- crates/ferroq-gateway/src/adapter/lagrange.rs: `call_api` and `health_check`. A call registers
-- itself under its echo and sends the request, and from then on waits for the answer or the timer.
use Prim.Native.String.{◌++◌}
use ferroq.Prelude.{
  ℕ, suc, ◌+◌, ◌%◌, ◌^◌, String, Bool, false, Option, none, some, nat_eq, any, ◌⊎◌, inl, inr,
  eq_String, eq_ℕ, if◌then◌else◌,
}
use ferroq.Prelude.Int.{pos, int_eq}
use ferroq.Prelude.Decimal.{to_string}
use ferroq.Prelude.HashMap
use ferroq.Prelude.HashMap.{HashMap}
use ferroq.Core.External.{External}
use ferroq.Core.Error.{GatewayError, connection, serialization, Result, ok, err}
use ferroq.Core.Api.{ApiRequest, ApiResponse}
use ferroq.Core.Adapter.{AdapterState, is_connected, state_text}
use ferroq.Lagrange.{LagrangeAdapter, text, World, put, send}

-- `Value::String`, and `serde_json::to_string` of a request: an error's text or the JSON.
pub record Writer (F : External) : Type 0 where
  pub string : String → F.Value
  pub request_json : ApiRequest F → String ⊎ String
  pub empty_object : F.Value

-- What a call that waits knows of itself.
pub record Waiting : Type 0 where
  pub id : ℕ
  pub echo : String
  pub action : String

unfoldable pub not_connected : String → AdapterState → GatewayError
unfolding state_text
not_connected name state =
    connection ("adapter '" ++ name ++ "' is not connected (state: " ++ state_text state ++ ")")

abbrev pub writer_closed : GatewayError
writer_closed = connection "ws writer channel closed"

abbrev pub no_writer : GatewayError
no_writer = connection "no ws writer available"

abbrev pub channel_dropped : GatewayError
channel_dropped = connection "API response channel dropped (connection lost?)"

abbrev pub timed_out : String → ℕ → GatewayError
unfolding to_string
timed_out action secs =
    connection ("API call '" ++ action ++ "' timed out after " ++ to_string secs ++ "s")

-- Whether the sender of a call's channel is still in the map.
abbrev pub has_sender : ℕ → HashMap String ℕ → Bool
has_sender id = any (λ e. nat_eq e.1 id)

module _ {F : External} where
  -- `fetch_add` on an `AtomicU64`, and `to_string`
  unfoldable pub next_echo : World F → String × World F
  unfolding to_string
  next_echo w =
      (to_string w.echo_counter, record w { echo_counter = (w.echo_counter + 1) % 2 ^ 64 })

  abbrev pub insert_pending : String → ℕ → World F → World F
  insert_pending echo id w =
      put w (record w.inner { pending_calls = HashMap.insert echo id w.inner.pending_calls })

  abbrev pub remove_pending : String → World F → World F
  remove_pending echo w =
      put w (record w.inner { pending_calls = HashMap.remove echo w.inner.pending_calls })

  -- The send, by the writer's channel, of a call that is registered.
  unfoldable pub send_request : Option ℕ → Waiting → String → World F → Result Waiting × World F
  unfolding send
  send_request none call json w = (err no_writer, remove_pending call.echo w)
  send_request (some tx) call json w =
      let (sent, w') = send tx (text json) w in (if sent then ok call else err writer_closed, w')

  unfoldable pub register_call :
      LagrangeAdapter → Waiting → String → World F → Result Waiting × World F
  unfolding send_request
  register_call a call json w =
      if is_connected w.inner.state
      then send_request w.inner.ws_writer_tx call json (insert_pending call.echo call.id w)
      else (err (not_connected a.name w.inner.state), w)

  unfoldable pub start :
      LagrangeAdapter → Waiting → String ⊎ String → World F → Result Waiting × World F
  unfolding register_call
  start a call (inl e) w = (err (serialization e), w)
  start a call (inr json) w = register_call a call json w

  abbrev with_echo : Writer F → String → ApiRequest F → ApiRequest F
  with_echo S echo request = record request { echo = some (S.string echo) }

  -- `call_api` up to its await. The call has the number of its turn.
  unfoldable pub begin_call :
      Writer F → LagrangeAdapter → ApiRequest F → World F → Result Waiting × World F
  unfolding next_echo start
  begin_call S a request w =
      let (echo, w') = next_echo w in
      let id = w'.next_call in
      start a (record { id = id; echo = echo; action = request.action })
        (S.request_json (with_echo S echo request)) (record w' { next_call = suc id })

  -- The await: the answer if it has come, an error if it cannot come any more or the timer is over,
  -- and otherwise nothing yet.
  unfoldable pub poll_call :
      LagrangeAdapter → Waiting → Bool → World F → Option (Result (ApiResponse F)) × World F
  poll_call a call expired w = elim (HashMap.get w.replies call.id) [
    | some response ↦ (some (ok response), record w { replies = HashMap.remove call.id w.replies })
    | none ↦
        if has_sender call.id w.inner.pending_calls
        then if expired
          then (some (err (timed_out call.action a.api_timeout)), remove_pending call.echo w)
          else (none, w)
        else (some (err channel_dropped), w)
  ]

  -- The request of `health_check`, and its verdict on the result of the call.
  unfoldable pub status_request : Writer F → ApiRequest F
  status_request S = record {
    action = "get_status";
    params = S.empty_object;
    echo = none;
    self_id = none;
  }

  unfoldable pub is_healthy : Result (ApiResponse F) → Bool
  is_healthy (ok resp) = int_eq resp.retcode (pos 0)
  is_healthy (err e) = false
