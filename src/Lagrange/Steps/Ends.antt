-- ===== src/Lagrange/Steps/Ends.antt =====
-- crates/ferroq-gateway/src/adapter/lagrange.rs: how a call ends that gets no answer.
use ferroq.Prelude.{
  ℕ, ◌<◌, String, ◌≡◌, ◌≢◌, refl, Bool, true, false, Option, none, some, [], ◌∷◌, arith, eq_ℕ,
  eq_String, ◌⊎◌, inl, inr, ==_iff,
}
use ferroq.Prelude.Int.{ℤ}
use ferroq.Prelude.HashMap
use ferroq.Prelude.HashMap.{HashMap, get-insert_self, get-insert_ne, get-insert, get-remove}
use ferroq.Core.External.{External}
use ferroq.Core.Event.{Event}
use ferroq.Core.Error.{GatewayError, Result, ok, err}
use ferroq.Core.Api.{ApiRequest, ApiResponse}
use ferroq.Lagrange.{
  LagrangeAdapter, World, WsMessage, pong, send, disconnect, send_close, monitor_look,
  monitor_attempt, begin_connect, end_connect, spawn_ws_tasks,
}
use ferroq.Lagrange.Call.{Writer, Waiting, begin_call, poll_call, has_sender, writer_closed}
use ferroq.Lagrange.Reader.{
  Source, Incoming, text, ping, other, failed, read, resolve, exit_reader, send_pong, send_event,
  learn, api_response,
}
use ferroq.Lagrange.Steps.{
  Step, call_starts, call_polled, message_read, writer_ends, monitor_looks, monitor_tries,
  disconnects, listener_ends, AnyStep, step, connect_starts, connect_ends, Run, done, next,
}
use ferroq.Lagrange.Steps.Cases.{
  handle_text_message-cases, begin_call-cases, poll_call-cases, call_of,
}

has_sender-remove :
    (id : ℕ) (k : String) (m : HashMap String ℕ)
    → has_sender id m ≡ false
    → has_sender id (HashMap.remove k m) ≡ false
unfolding HashMap.remove
has_sender-remove id k [] h = h
has_sender-remove id k ((j, n) ∷ m) h = ground (arith, has_sender-remove id k m)

has_sender-insert :
    (id : ℕ) (k : String) (n : ℕ) (m : HashMap String ℕ)
    → id < n
    → has_sender id m ≡ false
    → has_sender id (HashMap.insert k n m) ≡ false
unfolding HashMap.insert
has_sender-insert id k n m lt h = ground (arith, has_sender-remove id k m h)

send_close-next_call :
    {F : External} (tx : Option ℕ) (w : World F) → (send_close tx w).next_call ≡ w.next_call
unfolding send_close send
send_close-next_call none w = refl
send_close-next_call (some tx) w = ground arith

module _ {F : External} (id : ℕ) where
  -- No answer can reach the call of this number.
  abbrev pub IsCut : World F → Type 0
  IsCut w = (id < w.next_call) × (has_sender id w.inner.pending_calls ≡ false)

  begin_call-IsCut :
      (R : Writer F) (a : LagrangeAdapter) (request : ApiRequest F) (w : World F)
      → IsCut w
      → IsCut (begin_call R a request w).1
  unfolding call_of
  begin_call-IsCut R a request w (lt, h) =
      let later =
        has_sender-insert id (call_of w request).echo w.next_call w.inner.pending_calls lt h in
      begin_call-cases R a request w (λ r. IsCut r.1) (λ e other. (omega arith, h))
        (
          omega arith,
          has_sender-remove id (call_of w request).echo
              (HashMap.insert (call_of w request).echo w.next_call w.inner.pending_calls) later,
        )
        (omega arith, later) (λ log. (omega arith, later))

  poll_call-IsCut :
      (a : LagrangeAdapter) (call : Waiting) (b : Bool) (w : World F)
      → IsCut w
      → IsCut (poll_call a call b w).1
  poll_call-IsCut a call b w (lt, h) =
      poll_call-cases a call b w (λ r. IsCut r.1) (λ response e. (lt, h))
        (λ e. (lt, has_sender-remove id call.echo w.inner.pending_calls h)) (λ e g. (lt, h)) (lt, h)

  send-IsCut : (tx : ℕ) (m : WsMessage) (w : World F) → IsCut w → IsCut (send tx m w).1
  unfolding send
  send-IsCut tx m w c = ground arith

  send_pong-IsCut :
      (tx : Option ℕ) (body : String) (w : World F) → IsCut w → IsCut (send_pong tx body w)
  unfolding send_pong
  send_pong-IsCut none body w c = c
  send_pong-IsCut (some tx) body w c = send-IsCut tx (pong body) w c

  resolve-IsCut :
      (echo : String) (response : ApiResponse F) (w : World F)
      → IsCut w
      → IsCut (resolve echo response w)
  unfolding resolve
  resolve-IsCut echo response w (lt, h) =
      ground (arith, has_sender-remove id echo w.inner.pending_calls h)

  send_event-IsCut :
      (tx : Option ℕ) (event : Event F) (z : ℤ) (w : World F)
      → IsCut w
      → IsCut (send_event tx event (learn z w))
  send_event-IsCut none event z w c = ground arith
  send_event-IsCut (some tx) event z w c = ground arith

  exit_reader-IsCut : (n : ℕ) (w : World F) → IsCut w → IsCut (exit_reader n w)
  unfolding exit_reader
  exit_reader-IsCut n w c = ground arith

  read-IsCut : (S : Source F) (n : ℕ) (m : Incoming) (w : World F) → IsCut w → IsCut (read S n m w)
  unfolding read
  read-IsCut S n (text body) w c =
      handle_text_message-cases S IsCut w c (λ v echo h. resolve-IsCut echo (api_response S v) w c)
        (λ tx event z. send_event-IsCut tx event z w c) body
  read-IsCut S n (ping body) w c = send_pong-IsCut w.inner.ws_writer_tx body w c
  read-IsCut S n other w c = c
  read-IsCut S n Incoming.close w c = exit_reader-IsCut n w c
  read-IsCut S n (failed e) w c = exit_reader-IsCut n w c

  disconnect-IsCut : (w : World F) → id < w.next_call → IsCut (disconnect w).1
  unfolding disconnect send_close send
  disconnect-IsCut w lt = (omega (arith, send_close-next_call w.inner.ws_writer_tx w, lt), refl)

  module _ (S : Source F) (R : Writer F) (a : LagrangeAdapter) where
    Step-IsCut : (w w' : World F) → Step S R a w w' → IsCut w → IsCut w'
    unfolding monitor_look monitor_attempt
    Step-IsCut w _ (call_starts request) c = begin_call-IsCut R a request w c
    Step-IsCut w _ (call_polled call b) c = poll_call-IsCut a call b w c
    Step-IsCut w _ (message_read n m h) c = read-IsCut S n m w c
    Step-IsCut w _ (writer_ends n) c = c
    Step-IsCut w _ (monitor_looks n h) c = ground arith
    Step-IsCut w _ (monitor_tries n k true h) c = c
    Step-IsCut w _ (monitor_tries n k false h) c = c
    Step-IsCut w _ disconnects c = disconnect-IsCut w c.0
    Step-IsCut w _ (listener_ends tx) c = c

    AnyStep-IsCut : (w w' : World F) → AnyStep S R a w w' → IsCut w → IsCut w'
    unfolding begin_connect end_connect spawn_ws_tasks
    AnyStep-IsCut w w' (step s) c = Step-IsCut w w' s c
    AnyStep-IsCut w _ (connect_starts tx) c = c
    AnyStep-IsCut w _ (connect_ends (ok u)) c = c
    AnyStep-IsCut w _ (connect_ends (err e)) c = c

    Run-IsCut : (w w' : World F) → Run S R a w w' → IsCut w → IsCut w'
    Run-IsCut w _ done c = c
    Run-IsCut w w' (next {w' = u} run s) c = AnyStep-IsCut u w' s (Run-IsCut w u run c)

cut_poll :
    {F : External} (a : LagrangeAdapter) (call : Waiting) (b : Bool) (w : World F)
    → has_sender call.id w.inner.pending_calls ≡ false
    → (r : Result (ApiResponse F)) × ((poll_call a call b w).0 ≡ some r)
cut_poll {F} a call b w h =
    poll_call-cases a call b w (λ p. (r : Result (ApiResponse F)) × (p.0 ≡ some r))
      (λ response e. (ok response, refl)) (λ e. (_, refl)) (λ e g. cc) (_, refl)

module _ {F : External} (S : Source F) (R : Writer F) (a : LagrangeAdapter) where
  -- No call outlives a disconnect: each call that was made before it ends at the next poll,
  -- whatever happens in between, calls of `connect` included, and whether or not its time is over.
  pub disconnect-poll_call :
      (w w' : World F) (call : Waiting) (expired : Bool)
      → call.id < w.next_call
      → Run S R a (disconnect w).1 w'
      → (r : Result (ApiResponse F)) × ((poll_call a call expired w').0 ≡ some r)
  disconnect-poll_call w w' call expired lt run =
      cut_poll a call expired w'
        (Run-IsCut call.id S R a (disconnect w).1 w' run (disconnect-IsCut call.id w lt)).1

module _ {F : External} (R : Writer F) (a : LagrangeAdapter) where
  abbrev pub Pending : World F → World F → String → Type 0
  Pending w w' echo =
      HashMap.get w'.inner.pending_calls echo ≡ HashMap.get w.inner.pending_calls echo

  -- A call that cannot be sent, and under whose echo no other call waits, leaves the calls that
  -- wait as they were, unless it fails because the writer of the connection has ended: then it
  -- stays registered under its echo, and the calls under every other echo are as they were.
  pub begin_call-err :
      (request : ApiRequest F) (w : World F) (e : GatewayError)
      → HashMap.get w.inner.pending_calls (call_of w request).echo ≡ none
      → (begin_call R a request w).0 ≡ err e
      → ((e ≡ writer_closed)
          × (HashMap.get (begin_call R a request w).1.inner.pending_calls (call_of w request).echo
              ≡ some w.next_call)
          × ((echo : String)
              → (call_of w request).echo ≢ echo
              → Pending w (begin_call R a request w).1 echo))
        ⊎ ((e ≢ writer_closed) × ((echo : String) → Pending w (begin_call R a request w).1 echo))
  unfolding call_of
  begin_call-err request w e absent =
      begin_call-cases R a request w
        (λ r.
          r.0 ≡ err e
          → ((e ≡ writer_closed)
              × (HashMap.get r.1.inner.pending_calls (call_of w request).echo ≡ some w.next_call)
              × ((echo : String) → (call_of w request).echo ≢ echo → Pending w r.1 echo))
            ⊎ ((e ≢ writer_closed) × ((echo : String) → Pending w r.1 echo)))
        (λ e' other h. inr (λ same. other (cc (h, same)), λ echo. refl))
        (λ h. inr (
          λ same. cc (h, same),
          λ echo. ground (
            arith,
            get-remove (call_of w request).echo echo (
                HashMap.insert (call_of w request).echo (call_of w request).id
                  w.inner.pending_calls),
            get-insert (call_of w request).echo echo (call_of w request).id w.inner.pending_calls,
            ==_iff (call_of w request).echo echo,
            absent,
          ),
        ))
        (λ h. inl (
          cc,
          get-insert_self (call_of w request).echo w.next_call w.inner.pending_calls,
          λ echo differs.
              get-insert_ne (call_of w request).echo echo w.next_call w.inner.pending_calls differs,
        ))
        (λ log h. cc)
