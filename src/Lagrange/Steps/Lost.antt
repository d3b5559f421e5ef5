-- ===== src/Lagrange/Steps/Lost.antt =====
-- crates/ferroq-gateway/src/adapter/lagrange.rs: what becomes of an adapter that loses its
-- connection again after its monitor has brought the first one back.
use ferroq.Prelude.{
  ℕ, String, ◌≡◌, refl, ◌∙◌, ap, Bool, true, false, Option, none, some, [], ◌∷◌, arith, eq_ℕ,
  eq_String, ==_refl,
}
use ferroq.Prelude.Int.{ℤ}
use ferroq.Prelude.HashMap
use ferroq.Core.External.{External}
use ferroq.Core.Event.{Event}
use ferroq.Core.Adapter.{is_connected, connected}
use ferroq.Core.Api.{ApiRequest}
use ferroq.Lagrange.{
  LagrangeAdapter, World, Monitor, retrying, send, disconnect, monitor_attempt, WsMessage, pong,
  abort_monitor, send_close,
}
use ferroq.Lagrange.Call.{Writer, Waiting, begin_call, poll_call}
use ferroq.Lagrange.Reader.{
  Source, Incoming, text, ping, other, failed, read, resolve, exit_reader, send_pong, send_event,
  learn, api_response,
}
use ferroq.Lagrange.Steps.{
  Step, call_starts, call_polled, message_read, writer_ends, monitor_looks, monitor_tries,
  disconnects, listener_ends, Alone, done, next,
}
use ferroq.Lagrange.Steps.Cases.{handle_text_message-cases, begin_call-cases}

module _ {F : External} where
  -- There is no connection, and no task that would bring one.
  unfoldable pub IsLost : World F → Type 0
  IsLost w = (w.monitors ≡ []) × (is_connected w.inner.state ≡ false)

  begin_call-IsLost :
      (R : Writer F) (a : LagrangeAdapter) (request : ApiRequest F) (w : World F)
      → IsLost w
      → IsLost (begin_call R a request w).1
  unfolding IsLost
  begin_call-IsLost R a request w l =
      begin_call-cases R a request w (λ r. IsLost r.1) (λ e other. l) l l (λ log. l)

  poll_call-IsLost :
      (a : LagrangeAdapter) (call : Waiting) (b : Bool) (w : World F)
      → IsLost w
      → IsLost (poll_call a call b w).1
  unfolding IsLost poll_call
  poll_call-IsLost a call b w l = ground arith

  send-IsLost : (tx : ℕ) (m : WsMessage) (w : World F) → IsLost w → IsLost (send tx m w).1
  unfolding IsLost send
  send-IsLost tx m w l = ground arith

  send_pong-IsLost :
      (tx : Option ℕ) (body : String) (w : World F) → IsLost w → IsLost (send_pong tx body w)
  unfolding send_pong
  send_pong-IsLost none body w l = l
  send_pong-IsLost (some tx) body w l = send-IsLost tx (pong body) w l

  exit_reader-IsLost : (n : ℕ) (w : World F) → IsLost w → IsLost (exit_reader n w)
  unfolding IsLost exit_reader
  exit_reader-IsLost n w l = ground arith

  module _ (S : Source F) where
    resolve-IsLost :
        (echo : String) (v : F.Value) (w : World F)
        → IsLost w
        → IsLost (resolve echo (api_response S v) w)
    unfolding IsLost resolve
    resolve-IsLost echo v w l = ground arith

    send_event-IsLost :
        (tx : Option ℕ) (event : Event F) (z : ℤ) (w : World F)
        → IsLost w
        → IsLost (send_event tx event (learn z w))
    unfolding IsLost
    send_event-IsLost none event z w l = ground arith
    send_event-IsLost (some tx) event z w l = ground arith

    read-IsLost : (n : ℕ) (m : Incoming) (w : World F) → IsLost w → IsLost (read S n m w)
    unfolding read
    read-IsLost n (text body) w l =
        handle_text_message-cases S IsLost w l (λ v echo h. resolve-IsLost echo v w l)
          (λ tx event z. send_event-IsLost tx event z w l) body
    read-IsLost n (ping body) w l = send_pong-IsLost w.inner.ws_writer_tx body w l
    read-IsLost n other w l = l
    read-IsLost n Incoming.close w l = exit_reader-IsLost n w l
    read-IsLost n (failed e) w l = exit_reader-IsLost n w l

    send_close-monitors : (tx : Option ℕ) (w : World F) → (send_close tx w).monitors ≡ w.monitors
    unfolding send_close send
    send_close-monitors none w = refl
    send_close-monitors (some tx) w = ground arith

    abort_monitor-none : (h : Option ℕ) → abort_monitor h [] ≡ []
    unfolding HashMap.remove
    abort_monitor-none none = refl
    abort_monitor-none (some n) = refl

    disconnect-IsLost : (w : World F) → IsLost w → IsLost (disconnect w).1
    unfolding IsLost disconnect
    disconnect-IsLost w l = (
      ap (abort_monitor w.inner.reconnect_handle) (send_close-monitors w.inner.ws_writer_tx w ∙ l.0)
          ∙ abort_monitor-none w.inner.reconnect_handle,
      refl,
    )

    get-none :
        (monitors : HashMap.HashMap ℕ Monitor) (n : ℕ)
        → monitors ≡ []
        → HashMap.get monitors n ≡ none
    unfolding HashMap.get
    get-none monitors n h = rw (h) refl

    Step-IsLost :
        (R : Writer F) (a : LagrangeAdapter) (w w' : World F)
        → Step S R a w w'
        → IsLost w
        → IsLost w'
    unfolding IsLost
    Step-IsLost R a w _ (call_starts request) l = begin_call-IsLost R a request w l
    Step-IsLost R a w _ (call_polled call b) l = poll_call-IsLost a call b w l
    Step-IsLost R a w _ (message_read n m h) l = read-IsLost n m w l
    Step-IsLost R a w _ (writer_ends n) l = (l.0, l.1)
    Step-IsLost R a w _ (monitor_looks n h) l = cc (get-none w.monitors n l.0, h)
    Step-IsLost R a w _ (monitor_tries n k b h) l = cc (get-none w.monitors n l.0, h)
    Step-IsLost R a w _ disconnects l = disconnect-IsLost w l
    Step-IsLost R a w _ (listener_ends tx) l = (l.0, l.1)

    Alone-IsLost :
        (R : Writer F) (a : LagrangeAdapter) (w w' : World F)
        → Alone S R a w w'
        → IsLost w
        → IsLost w'
    Alone-IsLost R a w _ done l = l
    Alone-IsLost R a w w' (next {w' = v} run s) l =
        Step-IsLost R a v w' s (Alone-IsLost R a w v run l)

    reconnected-monitors :
        (n k : ℕ) (w : World F)
        → w.monitors ≡ (n, retrying k) ∷ []
        → (monitor_attempt n k true w).monitors ≡ []
    unfolding monitor_attempt HashMap.remove
    reconnected-monitors n k w h = rw (h, ==_refl n) refl

    close-IsLost :
        (m : ℕ) (w : World F)
        → w.monitors ≡ []
        → w.inner.state ≡ connected
        → IsLost (read S m Incoming.close w)
    unfolding IsLost read exit_reader
    close-IsLost m w h c = ground (arith, ap is_connected c)

    -- The connection is brought back once: when the only monitor has reconnected and the backend
    -- closes that connection too, the adapter is not connected again, whatever happens, until
    -- someone calls `connect`.
    pub once_only :
        (R : Writer F) (a : LagrangeAdapter) (w w' : World F) (n k m : ℕ)
        → w.monitors ≡ (n, retrying k) ∷ []
        → Alone S R a (read S m Incoming.close (monitor_attempt n k true w)) w'
        → is_connected w'.inner.state ≡ false
    unfolding IsLost monitor_attempt
    once_only R a w w' n k m h run =
        (Alone-IsLost R a (read S m Incoming.close (monitor_attempt n k true w)) w' run
          (close-IsLost m (monitor_attempt n k true w) (reconnected-monitors n k w h) refl)).1
