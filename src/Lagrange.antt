-- ===== src/Lagrange.antt =====
-- crates/ferroq-gateway/src/adapter/lagrange.rs: the adapter for a backend behind a WebSocket. Its
-- lock is held from the first read to the last write of each operation here; the reader, the writer
-- and the monitor of a connection are tasks, which take turns with the callers.
pub mod Call
pub mod Reader
pub mod Steps
pub mod Backoff
use ferroq.Prelude.{
  ℕ, suc, ◌+◌, ◌*◌, ◌^◌, ◌-◌, min, String, Bool, true, false, not, Option, none, some, List, [],
  ◌∷◌, ◌++◌, nat_eq, eq_String, eq_ℕ, if◌then◌else◌,
}
use ferroq.Prelude.Int.{ℤ}
use ferroq.Prelude.HashMap
use ferroq.Prelude.HashMap.{HashMap}
use ferroq.Core.External.{External}
use ferroq.Core.Config.{BackendConfig}
use ferroq.Core.Error.{GatewayError, Result, ok, err}
use ferroq.Core.Api.{ApiResponse}
use ferroq.Core.Event.{Event}
use ferroq.Core.Adapter.{
  AdapterState, disconnected, connecting, connected, reconnecting, is_connected, AdapterInfo,
}

pub record LagrangeAdapter : Type 0 where
  pub name : String
  pub backend_type : String
  pub url : String
  pub access_token : String
  pub reconnect_interval : ℕ
  pub max_reconnect_interval : ℕ
  pub connect_timeout : ℕ
  pub api_timeout : ℕ
  pub health_check_interval : ℕ

unfoldable pub new : String → String → String → ℕ → ℕ → ℕ → ℕ → ℕ → LagrangeAdapter
new name url access_token reconnect_interval max_reconnect_interval health_check_interval
      connect_timeout api_timeout =
    record {
      name = name;
      backend_type = "lagrange";
      url = url;
      access_token = access_token;
      reconnect_interval = reconnect_interval;
      max_reconnect_interval = max_reconnect_interval;
      connect_timeout = connect_timeout;
      api_timeout = api_timeout;
      health_check_interval = health_check_interval;
    }

unfoldable pub from_backend_config : String → BackendConfig → LagrangeAdapter
unfolding new
from_backend_config name cfg =
    record (new name cfg.url cfg.access_token cfg.reconnect_interval cfg.max_reconnect_interval
      cfg.health_check_interval cfg.connect_timeout cfg.api_timeout) {
        backend_type = cfg.backend_type;
      }

-- What the writer task sends.
pub data WsMessage : Type 0 where
  text pong : String → WsMessage
  close : WsMessage

-- A channel is a number: a writer's is that of its task, a call's is that of the call.
pub record Inner : Type 0 where
  pub state : AdapterState
  pub self_id : Option ℤ
  pub ws_writer_tx : Option ℕ
  pub pending_calls : HashMap String ℕ
  pub event_tx : Option ℕ
  pub reader_handle : Option ℕ
  pub writer_handle : Option ℕ
  pub reconnect_handle : Option ℕ

unfoldable pub new_inner : Inner
new_inner = record {
  state = disconnected;
  self_id = none;
  ws_writer_tx = none;
  pending_calls = [];
  event_tx = none;
  reader_handle = none;
  writer_handle = none;
  reconnect_handle = none;
}

-- The task that brings a lost connection back: it watches the state, and then is before its
-- attempt of this number.
pub data Monitor : Type 0 where
  watching : Monitor
  retrying : ℕ → Monitor

-- The adapter's state, its tasks, and both ends of its channels: `written` and `events` are all
-- that was put into the channels of the writers and of the gateway, `waiting` the calls that await
-- an answer and `replies` the answers that they have not taken yet.
pub record World (F : External) : Type 0 where
  pub inner : Inner
  pub echo_counter : ℕ
  pub readers : ℕ → Bool
  pub writers : ℕ → Bool
  pub monitors : HashMap ℕ Monitor
  pub next_task : ℕ
  pub written : List (ℕ × WsMessage)
  pub listening : ℕ → Bool
  pub events : List (ℕ × Event F)
  pub next_call : ℕ
  pub replies : HashMap ℕ (ApiResponse F)

abbrev pub start_task : ℕ → (ℕ → Bool) → ℕ → Bool
start_task n running i = if nat_eq i n then true else running i

abbrev pub stop_task : ℕ → (ℕ → Bool) → ℕ → Bool
stop_task n running i = if nat_eq i n then false else running i

-- `h.abort()` on a handle, if there is one.
abbrev pub abort : Option ℕ → (ℕ → Bool) → ℕ → Bool
abort none running = running
abort (some n) running = stop_task n running

abbrev pub abort_monitor : Option ℕ → HashMap ℕ Monitor → HashMap ℕ Monitor
abort_monitor none monitors = monitors
abort_monitor (some n) monitors = HashMap.remove n monitors

-- The wait before an attempt, in seconds, without the random share of up to 0.3 on top. The source
-- computes it in floating point, which is exact as long as the product is below 2^53.
unfoldable pub backoff : ℕ → ℕ → ℕ → ℕ
backoff base max_interval attempt = min (base * 2 ^ attempt) max_interval

-- `saturating_add(1)` of a `u32`
abbrev next_attempt : ℕ → ℕ
next_attempt attempt = min (suc attempt) (2 ^ 32 - 1)

module _ {F : External} where
  abbrev pub put : World F → Inner → World F
  put w inner = record w { inner = inner }

  -- `tx.send(message)`: whether the writer of this channel is still there.
  unfoldable pub send : ℕ → WsMessage → World F → Bool × World F
  send tx message w =
      if w.writers tx
      then (true, record w { written = w.written ++ (tx, message) ∷ [] })
      else (false, w)

  unfoldable pub info : LagrangeAdapter → World F → AdapterInfo
  info a w = record {
    name = a.name;
    backend_type = a.backend_type;
    url = a.url;
    state = w.inner.state;
    self_id = w.inner.self_id;
  }

  -- The tasks of a new connection, and their channel. All three have the same number.
  abbrev spawn_io : World F → World F
  spawn_io w =
      let n = w.next_task in
      record w {
        inner = record w.inner {
          ws_writer_tx = some n;
          reader_handle = some n;
          writer_handle = some n;
          state = connected;
        };
        readers = start_task n w.readers;
        writers = start_task n w.writers;
        next_task = suc n;
      }

  unfoldable pub spawn_ws_tasks : World F → World F
  spawn_ws_tasks w =
      let n = w.next_task in
      let w' = spawn_io w in
      record w' {
        inner = record w'.inner { reconnect_handle = some n };
        monitors = HashMap.insert n watching w'.monitors;
      }

  -- `connect` up to its await, and after it with the result of `establish_ws`.
  unfoldable pub begin_connect : ℕ → World F → World F
  begin_connect event_tx w = put w (record w.inner { state = connecting; event_tx = some event_tx })

  unfoldable pub end_connect : Result (Unit {0}) → World F → Result (Unit {0}) × World F
  unfolding spawn_ws_tasks
  end_connect (ok _) w = (ok tt, spawn_ws_tasks w)
  end_connect (err e) w = (err e, w)

  unfoldable pub send_close : Option ℕ → World F → World F
  unfolding send
  send_close none w = w
  send_close (some tx) w = (send tx close w).1

  unfoldable pub disconnect : World F → Result (Unit {0}) × World F
  unfolding send_close
  disconnect w =
      let i = w.inner in
      let w' = send_close i.ws_writer_tx w in
      (
        ok tt,
        record w' {
          inner = record i {
            ws_writer_tx = none;
            reader_handle = none;
            writer_handle = none;
            reconnect_handle = none;
            state = disconnected;
            pending_calls = [];
          };
          readers = abort i.reader_handle w'.readers;
          writers = abort i.writer_handle w'.writers;
          monitors = abort_monitor i.reconnect_handle w'.monitors;
        },
      )

  -- One look of a monitor at the state.
  unfoldable pub monitor_look : ℕ → World F → World F
  monitor_look n w = if is_connected w.inner.state then w else record w {
    inner = record w.inner { state = reconnecting; ws_writer_tx = none };
    monitors = HashMap.insert n (retrying 0) w.monitors;
  }

  -- One attempt of a monitor, and whether it brought a connection.
  unfoldable pub monitor_attempt : ℕ → ℕ → Bool → World F → World F
  monitor_attempt n attempt true w =
      let w' = spawn_io w in record w' { monitors = HashMap.remove n w'.monitors }
  monitor_attempt n attempt false w = record w {
    monitors = HashMap.insert n (retrying (next_attempt attempt)) w.monitors;
  }
