-- ===== src/Server/Connection/Replies.antt =====
-- crates/ferroq-gateway/src/server/onebot_v11.rs: the responses of a connection, however its tasks take turns.
use ferroq.Prelude.{ℕ, ◌≤◌, ◌≡◌, refl, some, length, get_elem?, arith, All}
use ferroq.Core.External.{External}
use ferroq.Core.Event.{Event}
use ferroq.Core.Api.{ApiRequest}
use ferroq.Server.{ServerState}
use ferroq.Server.Connection.{
  Connection, open_connection, push_event, receive_request, finish_route, send_reply, write_next,
}
use ferroq.Server.Connection.Ledger.{Once, TextOf}
use ferroq.Server.Connection.Sound.{
  IsSound, push_event-IsSound, receive_request-IsSound, route_task-IsSound, reply_task-IsSound,
  write_first-IsSound,
}

-- The requests of the client come in this order. The state and the world are those of the whole gateway,
-- which change otherwise too.
module _ {F : External} {W : Type 0} (null : F.Value) (asked : ℕ → ApiRequest F) where
  pub data Step
      : Connection F × ServerState F W × W → Connection F × ServerState F W × W → Type 0 where
    event_pushed :
        {c : Connection F} {state : ServerState F W} {w : W} (event : Event F)
        → Step (c, state, w) ((push_event event (c, state)).0, (push_event event (c, state)).1, w)
    request_received :
        {c : Connection F} {state : ServerState F W} {w : W} (r : Connection F × ServerState F W)
        → receive_request null (asked c.received) (c, state) ≡ some r
        → Step (c, state, w) (r.0, r.1, w)
    route_finished :
        {c : Connection F} {state : ServerState F W} {w : W} (i : ℕ)
        → Step (c, state, w) (finish_route null i (c, state) w)
    reply_sent :
        {c : Connection F} {state : ServerState F W} {w : W} (i : ℕ)
        → Step (c, state, w) (send_reply i c, state, w)
    text_written :
        {c : Connection F} {state : ServerState F W} {w : W}
        → Step (c, state, w) (write_next c, state, w)
    elsewhere :
        {c : Connection F} {state state' : ServerState F W} {w w' : W}
        → Step (c, state, w) (c, state', w')

  pub data Run
      : Connection F × ServerState F W × W → Connection F × ServerState F W × W → Type 0 where
    done : {s : Connection F × ServerState F W × W} → Run s s
    next : {s s' s'' : Connection F × ServerState F W × W} → Run s s' → Step s' s'' → Run s s''

  module _ (most : ℕ) where
    Step-IsSound :
        (s s' : Connection F × ServerState F W × W)
        → Step s s'
        → IsSound most asked s.0
        → IsSound most asked s'.0
    unfolding finish_route send_reply write_next
    Step-IsSound (c, state, w) _ (event_pushed event) v =
        push_event-IsSound most asked c v state event
    Step-IsSound (c, state, w) _ (request_received r h) v =
        receive_request-IsSound most asked c v state null r h
    Step-IsSound (c, state, w) _ (route_finished i) v =
        route_task-IsSound most asked c v state null w i (get_elem? c.tasks i) refl
    Step-IsSound (c, state, w) _ (reply_sent i) v =
        reply_task-IsSound most asked c v i (get_elem? c.tasks i) refl
    Step-IsSound (c, state, w) _ text_written v = write_first-IsSound most asked c v c.queue refl
    Step-IsSound (c, state, w) _ elsewhere v = v

    Run-IsSound :
        (s s' : Connection F × ServerState F W × W)
        → Run s s'
        → IsSound most asked s.0
        → IsSound most asked s'.0
    Run-IsSound s _ done v = v
    Run-IsSound s s' (next {s' = u} run step) v = Step-IsSound u s' step (Run-IsSound s u run v)

    open_connection-IsSound :
        (capacity : ℕ) (state : ServerState F W)
        → IsSound most asked (open_connection capacity most state).0
    unfolding open_connection
    open_connection-IsSound capacity state = record {
      permits = omega arith;
      bounded = omega arith;
      once = λ id. ground arith;
      tasks_of = tt;
      queue_of = tt;
      sent_of = tt;
    }

  -- In every run of a connection no more requests are in flight than the semaphore allows, the queue
  -- is within its capacity, each request received so far is in exactly one place, with its task, in
  -- the queue or sent, and each response sent has the echo of its request.
  pub Run-replies :
      (capacity most : ℕ) (state state' : ServerState F W) (w w' : W) (c : Connection F)
      → Run
          ((open_connection capacity most state).0, (open_connection capacity most state).1, w)
          (c, state', w')
      → (length c.tasks ≤ most) × (length c.queue ≤ c.capacity) × Once c × All (TextOf asked) c.sent
  Run-replies capacity most state state' w w' c run =
      let v =
        Run-IsSound most
          ((open_connection capacity most state).0, (open_connection capacity most state).1, w)
          (c, state', w') run (open_connection-IsSound most capacity state) in
      (omega (arith, v.permits), v.bounded, v.once, v.sent_of)
