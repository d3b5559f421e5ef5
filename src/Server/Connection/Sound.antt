-- ===== src/Server/Connection/Sound.antt =====
-- crates/ferroq-gateway/src/server/onebot_v11.rs: what holds of a connection between its steps.
use ferroq.Prelude.{
  ℕ, suc, ◌+◌, ◌-◌, ◌≤◌, ◌≡◌, refl, ap, true, Option, none, some, List, [], ◌∷◌, ◌++◌, length,
  get_elem?, ltb, ltb→lt, arith, All, All-append, length-append, Bool-cases, inl, inr,
}
use mathlib.Core.Path.{subst}
use ferroq.Core.External.{External}
use ferroq.Core.Event.{Event}
use ferroq.Core.Api.{ApiRequest, ApiResponse, with_echo}
use ferroq.Server.{ServerState, answer}
use ferroq.Server.Connection.{
  Outgoing, event_text, response_text, Phase, routing, replying, Connection, remove_at, set_at,
  has_place, push_event, receive_request, overload, route_task, reply_task, write_first,
}
use ferroq.Server.Connection.Ledger.{
  count_out, Once, TaskOf, TextOf, count_tasks-append, count_out-append, count_tasks-remove_at,
  length-remove_at, count_tasks-set_at, length-set_at, All-get_elem?, All-remove_at, All-set_at,
}

module _ {F : External} (most : ℕ) (asked : ℕ → ApiRequest F) where
  pub record IsSound (c : Connection F) : Type 0 where
    -- The permits are those of the tasks.
    pub permits : length c.tasks + c.available ≡ most
    pub bounded : length c.queue ≤ c.capacity
    pub once : Once c
    pub tasks_of : All (TaskOf asked) c.tasks
    pub queue_of : All (TextOf asked) c.queue
    pub sent_of : All (TextOf asked) c.sent

  module _ (c : Connection F) (v : IsSound c) where
    queued-IsSound :
        (event : Event F)
        → has_place c ≡ true
        → IsSound (record c { queue = c.queue ++ event_text event ∷ [] })
    queued-IsSound event h = record {
      permits = v.permits;
      bounded = omega (
        arith,
        length-append c.queue (event_text event ∷ []),
        ltb→lt (length c.queue) c.capacity h,
      );
      once = λ id. omega (arith, v.once id, count_out-append id c.queue (event_text event ∷ []));
      tasks_of = v.tasks_of;
      queue_of = All-append (TextOf asked) c.queue (event_text event ∷ []) v.queue_of (tt, tt);
      sent_of = v.sent_of;
    }

    accepted-IsSound :
        ltb 0 c.available ≡ true
        → IsSound (record c {
          available = c.available - 1;
          received = suc c.received;
          tasks = c.tasks ++ (c.received, routing (asked c.received)) ∷ [];
        })
    accepted-IsSound h = record {
      permits = omega (
        arith,
        v.permits,
        length-append c.tasks ((c.received, routing (asked c.received)) ∷ []),
        ltb→lt 0 c.available h,
      );
      bounded = v.bounded;
      once = λ id. ground (
        arith,
        v.once id,
        count_tasks-append id c.tasks ((c.received, routing (asked c.received)) ∷ []),
      );
      tasks_of =
          All-append (TaskOf asked) c.tasks ((c.received, routing (asked c.received)) ∷ [])
            v.tasks_of (refl, tt);
      queue_of = v.queue_of;
      sent_of = v.sent_of;
    }

    rejected-IsSound :
        (null : F.Value)
        → has_place c ≡ true
        → IsSound (record c {
          received = suc c.received;
          queue = c.queue ++ response_text c.received (overload null (asked c.received)) ∷ [];
        })
    unfolding overload with_echo
    rejected-IsSound null h = record {
      permits = v.permits;
      bounded = omega (
        arith,
        length-append c.queue (response_text c.received (overload null (asked c.received)) ∷ []),
        ltb→lt (length c.queue) c.capacity h,
      );
      once = λ id. ground (
        arith,
        v.once id,
        count_out-append id c.queue
            (response_text c.received (overload null (asked c.received)) ∷ []),
      );
      tasks_of = v.tasks_of;
      queue_of =
          All-append (TextOf asked) c.queue
            (response_text c.received (overload null (asked c.received)) ∷ []) v.queue_of
            (refl, tt);
      sent_of = v.sent_of;
    }

    routed-IsSound :
        (i id : ℕ) (request : ApiRequest F) (response : ApiResponse F)
        → get_elem? c.tasks i ≡ some (id, routing request)
        → IsSound
            (record c { tasks = set_at c.tasks i (id, replying (with_echo request.echo response)) })
    unfolding with_echo
    routed-IsSound i id request response h = record {
      permits = omega (
        arith,
        v.permits,
        length-set_at i (id, replying (with_echo request.echo response)) c.tasks,
      );
      bounded = v.bounded;
      once = λ k. omega (
        arith,
        v.once k,
        count_tasks-set_at k i id (routing request) (replying (with_echo request.echo response))
            c.tasks h,
      );
      tasks_of =
          All-set_at (TaskOf asked) c.tasks i (id, replying (with_echo request.echo response))
            v.tasks_of
            (ap (λ r. r.echo)
              (All-get_elem? (TaskOf asked) c.tasks i (id, routing request) v.tasks_of h));
      queue_of = v.queue_of;
      sent_of = v.sent_of;
    }

    replied-IsSound :
        (i id : ℕ) (response : ApiResponse F)
        → get_elem? c.tasks i ≡ some (id, replying response)
        → has_place c ≡ true
        → IsSound (record c {
          available = suc c.available;
          tasks = remove_at c.tasks i;
          queue = c.queue ++ response_text id response ∷ [];
        })
    replied-IsSound i id response h place = record {
      permits = omega (arith, v.permits, length-remove_at i (id, replying response) c.tasks h);
      bounded = omega (
        arith,
        length-append c.queue (response_text id response ∷ []),
        ltb→lt (length c.queue) c.capacity place,
      );
      once = λ k. omega (
        arith,
        v.once k,
        count_tasks-remove_at k i id (replying response) c.tasks h,
        count_out-append k c.queue (response_text id response ∷ []),
      );
      tasks_of = All-remove_at (TaskOf asked) c.tasks i v.tasks_of;
      queue_of =
          All-append (TextOf asked) c.queue (response_text id response ∷ []) v.queue_of
            (All-get_elem? (TaskOf asked) c.tasks i (id, replying response) v.tasks_of h, tt);
      sent_of = v.sent_of;
    }

    written-IsSound :
        (m : Outgoing F) (queue : List (Outgoing F))
        → c.queue ≡ m ∷ queue
        → IsSound (record c { queue = queue; sent = c.sent ++ m ∷ [] })
    written-IsSound m queue h =
        let all = subst (All (TextOf asked)) h v.queue_of in
        record {
          permits = v.permits;
          bounded = omega (arith, v.bounded, ap length h);
          once = λ id. omega (
            arith,
            v.once id,
            count_out-append id c.sent (m ∷ []),
            count_out-append id (m ∷ []) queue,
            ap (count_out id) h,
          );
          tasks_of = v.tasks_of;
          queue_of = all.1;
          sent_of = All-append (TextOf asked) c.sent (m ∷ []) v.sent_of (all.0, tt);
        }

    pub write_first-IsSound :
        (queue : List (Outgoing F)) → c.queue ≡ queue → IsSound (write_first queue c)
    write_first-IsSound [] h = v
    write_first-IsSound (m ∷ queue) h = written-IsSound m queue h

    pub reply_task-IsSound :
        (i : ℕ) (t : Option (ℕ × Phase F)) → get_elem? c.tasks i ≡ t → IsSound (reply_task i t c)
    reply_task-IsSound i none h = v
    reply_task-IsSound i (some (id, routing request)) h = v
    reply_task-IsSound i (some (id, replying response)) h = elim (Bool-cases (has_place c)) [
      | inl place ↦ rw (place) (replied-IsSound i id response h place)
      | inr full ↦ rw (full) v
    ]

    module _ {W : Type 0} (state : ServerState F W) where
      pub push_event-IsSound : (event : Event F) → IsSound (push_event event (c, state)).0
      unfolding push_event
      push_event-IsSound event = elim (Bool-cases (has_place c)) [
        | inl place ↦ rw (place, push_event) (queued-IsSound event place)
        | inr full ↦ rw (full, push_event) v
      ]

      pub route_task-IsSound :
          (null : F.Value) (w : W) (i : ℕ) (t : Option (ℕ × Phase F))
          → get_elem? c.tasks i ≡ t
          → IsSound (route_task null i t c state w).0
      unfolding route_task
      route_task-IsSound null w i none h = v
      route_task-IsSound null w i (some (id, routing request)) h =
          routed-IsSound i id request (answer null state request w).0 h
      route_task-IsSound null w i (some (id, replying response)) h = v

      abbrev Held : Option (Connection F × ServerState F W) → Type 0
      Held none = Unit
      Held (some r) = IsSound r.0

      receive_request-Held :
          (null : F.Value) → Held (receive_request {F = F} null (asked c.received) (c, state))
      unfolding receive_request
      receive_request-Held null = elim (Bool-cases (ltb 0 c.available)) [
        | inl free ↦ rw (free, receive_request) (accepted-IsSound free)
        | inr busy ↦ elim (Bool-cases (has_place c)) [
          | inl place ↦ rw (busy, place, receive_request) (rejected-IsSound null place)
          | inr full ↦ rw (busy, full, receive_request) tt
        ]
      ]

      pub receive_request-IsSound :
          (null : F.Value) (r : Connection F × ServerState F W)
          → receive_request {F = F} null (asked c.received) (c, state) ≡ some r
          → IsSound r.0
      receive_request-IsSound null r h = subst Held h (receive_request-Held null)
