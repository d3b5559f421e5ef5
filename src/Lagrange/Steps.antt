-- ===== src/Lagrange/Steps.antt =====
-- crates/ferroq-gateway/src/adapter/lagrange.rs: the steps that the callers, the tasks and the
-- backend take in turn.
pub mod Cases
pub mod Echo
pub mod Answers
pub mod Ends
pub mod Lost
use ferroq.Prelude.{ℕ, ◌≡◌, String, Bool, true, false, none, some, [], eq_ℕ}
use ferroq.Prelude.HashMap
use ferroq.Core.External.{External}
use ferroq.Core.Error.{Result}
use ferroq.Core.Api.{ApiRequest}
use ferroq.Lagrange.{
  LagrangeAdapter, World, Monitor, watching, retrying, new_inner, stop_task, begin_connect,
  end_connect, disconnect, monitor_look, monitor_attempt,
}
use ferroq.Lagrange.Call.{Writer, Waiting, begin_call, poll_call}
use ferroq.Lagrange.Reader.{Source, Incoming, read}

-- The world of a new adapter.
abbrev pub fresh : {F : External} → (ℕ → Bool) → World F
unfolding new_inner
fresh listening = record {
  inner = new_inner;
  echo_counter = 1;
  readers = λ n. false;
  writers = λ n. false;
  monitors = [];
  next_task = 0;
  written = [];
  listening = listening;
  events = [];
  next_call = 1;
  replies = [];
}

module _ {F : External} (S : Source F) (R : Writer F) (a : LagrangeAdapter) where
  pub data Step : World F → World F → Type 0 where
    call_starts : {w : World F} (request : ApiRequest F) → Step w (begin_call R a request w).1
    call_polled :
        {w : World F} (call : Waiting) (expired : Bool) → Step w (poll_call a call expired w).1
    message_read :
        {w : World F} (n : ℕ) (message : Incoming)
        → w.readers n ≡ true
        → Step w (read S n message w)
    writer_ends : {w : World F} (n : ℕ) → Step w (record w { writers = stop_task n w.writers })
    monitor_looks :
        {w : World F} (n : ℕ) → HashMap.get w.monitors n ≡ some watching → Step w (monitor_look n w)
    monitor_tries :
        {w : World F} (n attempt : ℕ) (connects : Bool)
        → HashMap.get w.monitors n ≡ some (retrying attempt)
        → Step w (monitor_attempt n attempt connects w)
    disconnects : {w : World F} → Step w (disconnect w).1
    listener_ends :
        {w : World F} (tx : ℕ) → Step w (record w { listening = stop_task tx w.listening })

  -- The steps of a use of the adapter, with its calls of `connect`.
  pub data AnyStep : World F → World F → Type 0 where
    step : {w w' : World F} → Step w w' → AnyStep w w'
    connect_starts : {w : World F} (event_tx : ℕ) → AnyStep w (begin_connect event_tx w)
    connect_ends : {w : World F} (r : Result (Unit {0})) → AnyStep w (end_connect r w).1

  pub data Run : World F → World F → Type 0 where
    done : {w : World F} → Run w w
    next : {w w' w'' : World F} → Run w w' → AnyStep w' w'' → Run w w''

  -- A run in which nobody connects.
  pub data Alone : World F → World F → Type 0 where
    done : {w : World F} → Alone w w
    next : {w w' w'' : World F} → Alone w w' → Step w' w'' → Alone w w''
