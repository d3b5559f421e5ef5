-- ===== src/Server/Connection.antt =====
-- crates/ferroq-gateway/src/server/onebot_v11.rs, `handle_ws_connection`: one forward WebSocket
-- connection. Its reader, the task that pushes events, the writer and one task for each request take
-- turns; a send into the bounded queue that awaits a place is a step that is not there before.
pub mod Ledger
pub mod Sound
pub mod Replies
use ferroq.Prelude.{
  ℕ, zero, suc, ◌-◌, String, Bool, true, false, Option, none, some, List, [], ◌∷◌, ◌++◌, length,
  get_elem?, ltb, if◌then◌else◌,
}
use ferroq.Prelude.Int.{pos}
use ferroq.Core.External.{External}
use ferroq.Core.Event.{Event}
use ferroq.Core.Api.{ApiRequest, ApiResponse, fail, with_echo}
use ferroq.Stats.{record_ws_event_dropped, record_ws_api_rejected, ws_connect, ws_disconnect}
use ferroq.Server.{ServerState, answer}

-- What stands in the queue. A response has the number of its request.
pub data Outgoing (F : External) : Type 0 where
  event_text : Event F → Outgoing F
  response_text : ℕ → ApiResponse F → Outgoing F

-- A task for a request: before the router's answer, and with the response to send.
pub data Phase (F : External) : Type 0 where
  routing : ApiRequest F → Phase F
  replying : ApiResponse F → Phase F

-- `available` is the semaphore; `queue` and `sent` are what the writer has before it and behind it.
pub record Connection (F : External) : Type 0 where
  pub capacity : ℕ
  pub available : ℕ
  pub received : ℕ
  pub tasks : List (ℕ × Phase F)
  pub queue : List (Outgoing F)
  pub sent : List (Outgoing F)

abbrev pub has_place : {F : External} → Connection F → Bool
has_place c = ltb (length c.queue) c.capacity

abbrev pub remove_at {ℓ} : {A : Type ℓ} → List A → ℕ → List A
remove_at [] i = []
remove_at (x ∷ xs) zero = xs
remove_at (x ∷ xs) (suc i) = x ∷ remove_at xs i

abbrev pub set_at {ℓ} : {A : Type ℓ} → List A → ℕ → A → List A
set_at [] i y = []
set_at (x ∷ xs) zero y = y ∷ xs
set_at (x ∷ xs) (suc i) y = x ∷ set_at xs i y

unfoldable pub overload : {F : External} → F.Value → ApiRequest F → ApiResponse F
unfolding with_echo fail
overload null request =
    with_echo request.echo (fail null (pos 1400) "too many in-flight WS API requests")

module _ {F : External} {W : Type 0} where
  -- `ws_outbound_queue_capacity` and `ws_api_max_in_flight` give the two numbers.
  unfoldable pub open_connection : ℕ → ℕ → ServerState F W → Connection F × ServerState F W
  unfolding ws_connect
  open_connection capacity max_in_flight state = (
    record {
      capacity = capacity;
      available = max_in_flight;
      received = 0;
      tasks = [];
      queue = [];
      sent = [];
    },
    record state { stats = ws_connect state.stats },
  )

  -- An event from the bus: `try_send`.
  unfoldable pub push_event :
      Event F → Connection F × ServerState F W → Connection F × ServerState F W
  unfolding record_ws_event_dropped
  push_event event (c, state) =
      if has_place c
      then (record c { queue = c.queue ++ event_text event ∷ [] }, state)
      else (c, record state { stats = record_ws_event_dropped state.stats })

module _ {F : External} {W : Type 0} (null : F.Value) where
  -- A text of the client that is a request: a task of its own if there is a permit, and otherwise a
  -- response at once, which needs a place.
  unfoldable pub receive_request :
      ApiRequest F → Connection F × ServerState F W → Option (Connection F × ServerState F W)
  unfolding overload record_ws_api_rejected
  receive_request request (c, state) =
      if ltb 0 c.available
      then some (
        record c {
          available = c.available - 1;
          received = suc c.received;
          tasks = c.tasks ++ (c.received, routing request) ∷ [];
        },
        state,
      )
      else if has_place c
      then some (
        record c {
          received = suc c.received;
          queue = c.queue ++ response_text c.received (overload null request) ∷ [];
        },
        record state { stats = record_ws_api_rejected state.stats },
      )
      else none

  -- The router's answer to the request of a task; an answer gets the echo of the request.
  unfoldable pub route_task :
      ℕ
      → Option (ℕ × Phase F)
      → Connection F
      → ServerState F W
      → W
      → Connection F × ServerState F W × W
  unfolding answer with_echo
  route_task i (some (id, routing request)) c state w =
      let (response, state', w') = answer null state request w in
      (
        record c { tasks = set_at c.tasks i (id, replying (with_echo request.echo response)) },
        state',
        w',
      )
  route_task i (some (id, replying response)) c state w = (c, state, w)
  route_task i none c state w = (c, state, w)

  unfoldable pub finish_route :
      ℕ → Connection F × ServerState F W → W → Connection F × ServerState F W × W
  unfolding route_task
  finish_route i (c, state) w = route_task i (get_elem? c.tasks i) c state w

-- A task sends its response, if there is a place, and gives its permit back.
abbrev pub reply_task : {F : External} → ℕ → Option (ℕ × Phase F) → Connection F → Connection F
reply_task i (some (id, replying response)) c =
    if has_place c
    then record c {
      available = suc c.available;
      tasks = remove_at c.tasks i;
      queue = c.queue ++ response_text id response ∷ [];
    }
    else c
reply_task i (some (id, routing request)) c = c
reply_task i none c = c

unfoldable pub send_reply : {F : External} → ℕ → Connection F → Connection F
send_reply i c = reply_task i (get_elem? c.tasks i) c

-- The writer takes a text from the queue.
abbrev pub write_first : {F : External} → List (Outgoing F) → Connection F → Connection F
write_first [] c = c
write_first (m ∷ queue) c = record c { queue = queue; sent = c.sent ++ m ∷ [] }

unfoldable pub write_next : {F : External} → Connection F → Connection F
write_next c = write_first c.queue c

unfoldable pub close_connection : {F : External} {W : Type 0} → ServerState F W → ServerState F W
unfolding ws_disconnect
close_connection state = record state { stats = ws_disconnect state.stats }
