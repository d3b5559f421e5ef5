-- ===== src/Server/Satori/Orderly.antt =====
-- crates/ferroq-gateway/src/server/satori.rs: every run of a connection is orderly.
use mathlib.Core.List.{append_assoc}
use mathlib.Core.Path.{subst}
use ferroq.Prelude.{
  ℕ, ◌≤◌, String, Bool, true, false, some, List, [], ◌∷◌, ◌++◌, ◌≡◌, refl, sym, ◌∙◌, ap, ◌⊎◌, inl,
  inr, length, length-append, ltb→lt, arith, Bool-cases, nat_eq, ◌||◌,
}
use ferroq.Core.External.{External}
use ferroq.Core.Json.{JsonValue}
use ferroq.Middleware.Text.{Text}
use ferroq.Server.Satori.{
  SatoriState, Session, Signal, ready_signal, event_signal, pong_signal, identifying, serving,
  open_session, end_session, take_identify, answer_identify, take_signal, push_signal, write_signal,
  write_head, write_ready, op_of, has_place,
}
use ferroq.Server.Satori.Numbers.{Rises, Rises-le, Rises-event, Rises-pong}
use ferroq.Server.Satori.Runs.{
  Step, identify_step, signal_step, push_step, write_step, end_step, elsewhere, Run, opened,
  then_step, log, Sent, IsOrderly,
}

module _ {F : External} where
  silent_parts : (xs ys : List (Signal F)) → xs ++ ys ≡ [] → (xs ≡ []) × (ys ≡ [])
  silent_parts [] ys h = (refl, h)
  silent_parts (x ∷ xs) ys h = cc

  Sent-known :
      (known now : Bool) (all : List (Signal F)) (n m : ℕ)
      → n ≤ m
      → Sent known all n
      → Sent (known || now) all m
  Sent-known known now all n m h (inl e) = inl e
  Sent-known known now all n m h (inr (rest, e, r, inl q)) =
      inr (rest, e, Rises-le 0 n m rest r h, inl q)
  Sent-known known now all n m h (inr (rest, e, r, inr k)) =
      inr (rest, e, Rises-le 0 n m rest r h, inr (rw k))

  -- READY behind nothing.
  ready_log : (c : Session F) → log c ≡ [] → log (write_ready c) ≡ ready_signal ∷ []
  unfolding write_ready
  ready_log c h = let (w, q) = silent_parts c.wire c.queue h in rw (w, q)

  Sent-ready :
      (c : Session F) (known : Bool) (n : ℕ) → log c ≡ [] → Sent known (log (write_ready c)) n
  Sent-ready c known n h = inr ([], ready_log c h, omega arith, inl refl)

  appended_log :
      (c : Session F) (m : Signal F) (rest : List (Signal F))
      → log c ≡ ready_signal ∷ rest
      → c.wire ++ (c.queue ++ m ∷ []) ≡ ready_signal ∷ (rest ++ m ∷ [])
  appended_log c m rest e =
      sym (append_assoc c.wire c.queue (m ∷ [])) ∙ ap (λ (l : List (Signal F)). l ++ m ∷ []) e

  written_log :
      (c : Session F) (queue : List (Signal F)) → c.queue ≡ queue → log (write_head queue c) ≡ log c
  written_log c [] e = refl
  written_log c (m ∷ queue) e = rw e (append_assoc c.wire (m ∷ []) queue)

  signal-cases :
      (J : JsonValue F.Value) (v : F.Value) (c c' : Session F)
      → take_signal J v c ≡ some c'
      → (c ≡ c') ⊎ ((has_place c ≡ true) × (record c { queue = c.queue ++ pong_signal ∷ [] } ≡ c'))
  unfolding take_signal
  signal-cases J v c c' h = elim (Bool-cases (nat_eq (op_of J v) 1)) [
    | inr other ↦ inl (cc (rw other at h))
    | inl ping ↦ elim (Bool-cases (has_place c)) [
      | inl place ↦ inr (place, cc (rw (ping, place) at h))
      | inr full ↦ cc (rw (ping, full) at h)
    ]
  ]

module _ {F : External} {W : Type 0} where
  -- More may be known, and numbers may be taken elsewhere.
  known-IsOrderly :
      (capacity : ℕ) (c : Session F) (state state' : SatoriState F W) (known now : Bool)
      → state.sn_counter ≤ state'.sn_counter
      → IsOrderly capacity (c, state) known
      → IsOrderly capacity (c, state') (known || now)
  known-IsOrderly capacity c state state' known now h o = record {
    capacity_kept = o.capacity_kept;
    within = o.within;
    silent = o.silent;
    known_first = λ e. ground (arith, o.known_first e);
    greeted = o.greeted;
    sent = Sent-known known now (log c) _ _ h o.sent;
  }

  end-IsOrderly :
      (capacity : ℕ) (c : Session F) (state : SatoriState F W) (known : Bool)
      → c.capacity ≡ capacity
      → length c.queue ≤ capacity
      → Sent known (log c) state.sn_counter
      → IsOrderly capacity (end_session (c, state)) known
  unfolding end_session
  end-IsOrderly capacity c state known k w sent = record {
    capacity_kept = k;
    within = w;
    silent = λ h. cc;
    known_first = λ h. cc;
    greeted = λ h. cc;
    sent = sent;
  }

  answer-IsOrderly :
      (capacity : ℕ) (c : Session F) (state : SatoriState F W) (known accepted writable : Bool)
      → c.stage ≡ identifying
      → IsOrderly capacity (c, state) known
      → IsOrderly capacity (answer_identify accepted writable (c, state)) (known || accepted)
  unfolding answer_identify
  answer-IsOrderly capacity c state known true true st o = record {
    capacity_kept = o.capacity_kept;
    within = o.within;
    silent = λ h. cc;
    known_first = λ h. ground arith;
    greeted = λ h. ([], ready_log c (o.silent st));
    sent = Sent-ready c (known || true) _ (o.silent st);
  }
  answer-IsOrderly capacity c state known false true st o =
      end-IsOrderly capacity (write_ready c) state (known || false) o.capacity_kept o.within
        (Sent-ready c (known || false) _ (o.silent st))
  answer-IsOrderly capacity c state known accepted false st o =
      end-IsOrderly capacity c state (known || accepted) o.capacity_kept o.within
        (Sent-known known accepted (log c) _ _ (omega arith) o.sent)

  -- One more signal in the queue of a connection that serves.
  append-IsOrderly :
      (capacity : ℕ) (c : Session F) (state state' : SatoriState F W) (known : Bool) (m : Signal F)
      → c.stage ≡ serving
      → has_place c ≡ true
      → ((rest : List (Signal F))
          → Rises 0 rest state.sn_counter
          → Rises 0 (rest ++ m ∷ []) state'.sn_counter)
      → IsOrderly capacity (c, state) known
      → IsOrderly capacity (record c { queue = c.queue ++ m ∷ [] }, state') (known || false)
  append-IsOrderly capacity c state state' known m st place rises o =
      let (rest, e) = o.greeted st in
      record {
        capacity_kept = o.capacity_kept;
        within = omega (
          arith,
          length-append c.queue (m ∷ []),
          ltb→lt (length c.queue) c.capacity place,
          o.capacity_kept,
        );
        silent = λ h. cc;
        known_first = λ h. ground (arith, o.known_first st);
        greeted = λ h. (rest ++ m ∷ [], appended_log c m rest e);
        sent = extended o.sent e;
      }
    where
      extended :
          {rest : List (Signal F)}
          → Sent known (log c) state.sn_counter
          → log c ≡ ready_signal ∷ rest
          → Sent (known || false) (c.wire ++ (c.queue ++ m ∷ [])) state'.sn_counter
      extended (inl none_sent) e = cc
      extended (inr (rest, e', r, k)) e = inr (
        rest ++ m ∷ [],
        appended_log c m rest e',
        rises rest r,
        inr (ground (arith, o.known_first st)),
      )

  write-IsOrderly :
      (capacity : ℕ) (c : Session F) (state : SatoriState F W) (known : Bool)
      (queue : List (Signal F))
      → c.queue ≡ queue
      → c.stage ≡ serving
      → IsOrderly capacity (c, state) known
      → IsOrderly capacity (write_head queue c, state) (known || false)
  write-IsOrderly capacity c state known [] e st o =
      known-IsOrderly capacity c state state known false (omega arith) o
  write-IsOrderly capacity c state known (m ∷ queue) e st o =
      let same = written_log c (m ∷ queue) e in
      let (rest, g) = o.greeted st in
      record {
        capacity_kept = o.capacity_kept;
        within = omega (arith, ap length e, o.within);
        silent = λ h. cc;
        known_first = λ h. ground (arith, o.known_first st);
        greeted = λ h. (rest, same ∙ g);
        sent =
            subst (λ l. Sent (known || false) l state.sn_counter) (sym same)
              (Sent-known known false (log c) _ _ (omega arith) o.sent);
      }

module _ {F : External} {W : Type 0} (J : JsonValue F.Value) (as_bytes : String → Text) where
  pub Step-IsOrderly :
      (capacity : ℕ) (known : Bool) {s t : Session F × SatoriState F W} {now : Bool}
      → Step J as_bytes s now t
      → IsOrderly capacity s known
      → IsOrderly capacity t (known || now)
  unfolding take_identify push_signal take_signal write_signal end_session
  Step-IsOrderly capacity known (identify_step {c} {state} v writable st) o =
      elim (Bool-cases (nat_eq (op_of J v) 3)) [
        | inl e ↦ rw e (answer-IsOrderly capacity c state known _ writable st o)
        | inr e ↦ rw e (known-IsOrderly capacity c state state known _ (omega arith) o)
      ]
  Step-IsOrderly capacity known (signal_step {c} {c'} {state} v st h) o =
      elim (signal-cases J v c c' h) [
        | inl e ↦
            subst (λ d. IsOrderly capacity (d, state) (known || false)) e
              (known-IsOrderly capacity c state state known false (omega arith) o)
        | inr (place, e) ↦
            subst (λ d. IsOrderly capacity (d, state) (known || false)) e
              (append-IsOrderly capacity c state state known pong_signal st place
                (Rises-pong 0 state.sn_counter) o)
      ]
  Step-IsOrderly capacity known (push_step {c} {state} e st h) o = elim (Bool-cases (has_place c)) [
    | inl place ↦ rw place (
        append-IsOrderly capacity c state _ known (event_signal e _) st place
          (λ rest r. Rises-event 0 state.sn_counter _ e rest r (omega arith)) o)
    | inr full ↦ rw full (known-IsOrderly capacity c state _ known false (omega arith) o)
  ]
  Step-IsOrderly capacity known (write_step {c} {state} st) o =
      write-IsOrderly capacity c state known c.queue refl st o
  Step-IsOrderly capacity known (end_step {c} {state} h) o =
      end-IsOrderly capacity c state (known || false) o.capacity_kept o.within
        (Sent-known known false (log c) _ _ (omega arith) o.sent)
  Step-IsOrderly capacity known (elsewhere {c} {state} {state'} h) o =
      known-IsOrderly capacity c state state' known false h o

  -- In every run of a connection in which the counter of events does not wrap around, the queue is
  -- within its capacity, nothing goes out before READY, something is queued or sent behind it only
  -- if the client was identified with the token that held then, and the numbers of the events
  -- rise.
  pub Run-IsOrderly :
      {capacity : ℕ} {s : Session F × SatoriState F W} {known : Bool}
      → Run J as_bytes capacity s known
      → IsOrderly capacity s known
  unfolding open_session
  Run-IsOrderly (opened state) = record {
    capacity_kept = refl;
    within = omega arith;
    silent = λ h. refl;
    known_first = λ h. cc;
    greeted = λ h. cc;
    sent = inl refl;
  }
  Run-IsOrderly {capacity} (then_step {s} {t} {known} {now} run step) =
      Step-IsOrderly capacity known step (Run-IsOrderly run)
