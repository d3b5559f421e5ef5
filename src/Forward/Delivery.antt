-- ===== src/Forward/Delivery.antt =====
-- crates/ferroq-gateway/src/forward.rs: what reaches the bus, and what the counters say of it.
use mathlib.Core.List.{append-nil, append_assoc}
use ferroq.Prelude.{
  ℕ, suc, ◌+◌, ◌%◌, ◌^◌, ◌≡◌, refl, sym, ap, ◌∙◌, String, Bool, true, false, some, List, [], ◌∷◌,
  ◌++◌, map, arith, nat_eq, if◌then◌else◌, Bool-cases, inl, inr,
}
use mathlib.Core.Path.{subst}
use ferroq.Prelude.Int.{ℤ}
use ferroq.Core.External.{External}
use ferroq.Core.Event.{Event}
use ferroq.Dedup.{DedupFilter, new, check, run, is_duplicate, from_secs}
use ferroq.Dedup.Fingerprint.{Json, Hasher, fingerprint}
use ferroq.Dedup.History.{expected, Ascending, run-expected}
use ferroq.Stats.{RuntimeStats, record_event_for, record_event_deduplicated}
use ferroq.Forward.{EventBus, Shared, publish, pass_on, forward_one, deliver}

-- The events whose answer is `false`.
abbrev pub survivors {ℓ} : {A : Type ℓ} → List Bool → List (String × A × ℕ) → List A
survivors [] rounds = []
survivors (dup ∷ answers) [] = []
survivors (dup ∷ answers) ((_, event, _) ∷ rounds) =
    if dup then survivors answers rounds else event ∷ survivors answers rounds

abbrev pub count_of : Bool → List Bool → ℕ
count_of b [] = 0
count_of true (a ∷ answers) = if a then suc (count_of true answers) else count_of true answers
count_of false (a ∷ answers) = if a then count_of false answers else suc (count_of false answers)

abbrev Counted : RuntimeStats → ℕ → ℕ → Type 0
Counted stats d e = (stats.events_deduplicated ≡ d % 2 ^ 64) × (stats.events_total ≡ e % 2 ^ 64)

publish-heard :
    {F : External} (bus : EventBus F) (event : Event F)
    → nat_eq bus.receiver_count 0 ≡ false
    → publish bus event ≡ record bus { sent = bus.sent ++ event ∷ [] }
unfolding publish
publish-heard bus event heard = rw heard refl

module _ {F : External} (H : Hasher) (view : F.Value → Json) (timestamp : F.DateTime → ℤ) where
  abbrev pub stamped : List (String × Event F × ℕ) → List (ℕ × ℕ)
  stamped = map (λ r. (fingerprint H view timestamp r.1, r.2))

  -- One round for an event that the filter answers with `true`, and with `false`.
  module _ (bus : EventBus F) (stats : RuntimeStats) (f : DedupFilter) (name : String)
      (event : Event F) (now : ℕ) where
    abbrev before : Shared F
    before = record { bus = bus; stats = stats; dedup = some f }

    abbrev answer : Bool
    answer = (check f (fingerprint H view timestamp event) now).0

    abbrev filter' : DedupFilter
    filter' = (check f (fingerprint H view timestamp event) now).1

    abbrev dropped : Shared F
    dropped = record { bus = bus; stats = record_event_deduplicated stats; dedup = some filter' }

    abbrev passed : Shared F
    passed = record {
      bus = publish bus event;
      stats = record_event_for stats name;
      dedup = some filter';
    }

    forward_one_lem :
        forward_one H view timestamp before name event now ≡ (if answer then dropped else passed)
    unfolding forward_one pass_on is_duplicate
    forward_one_lem = refl

    forward_one-dropped :
        answer ≡ true → forward_one H view timestamp before name event now ≡ dropped
    forward_one-dropped e = forward_one_lem ∙ ap (λ b. if b then dropped else passed) e

    forward_one-passed :
        answer ≡ false → forward_one H view timestamp before name event now ≡ passed
    forward_one-passed e = forward_one_lem ∙ ap (λ b. if b then dropped else passed) e

  abbrev answers : DedupFilter → Event F → ℕ → List (String × Event F × ℕ) → List Bool
  answers f event now rounds =
      (run (check f (fingerprint H view timestamp event) now).1 (stamped rounds)).0

  sent-deliver :
      (bus : EventBus F) (stats : RuntimeStats) (f : DedupFilter)
      (rounds : List (String × Event F × ℕ))
      → nat_eq bus.receiver_count 0 ≡ false
      → (deliver H view timestamp
          (record { bus = bus; stats = stats; dedup = some f })
          rounds).bus.sent
        ≡ bus.sent ++ survivors (run f (stamped rounds)).0 rounds
  unfolding deliver run
  sent-deliver bus stats f [] heard = sym (append-nil bus.sent)
  sent-deliver bus stats f ((name, event, now) ∷ rounds) heard =
      elim (Bool-cases (answer bus stats f name event now)) [
        | inl e ↦
            ap (λ g. (deliver H view timestamp g rounds).bus.sent)
              (forward_one-dropped bus stats f name event now e)
            ∙ sent-deliver bus _ _ rounds heard
            ∙ ap
                (λ b.
                  bus.sent
                  ++ survivors (b ∷ answers f event now rounds) ((name, event, now) ∷ rounds))
                (sym e)
        | inr e ↦
            let grown = record bus { sent = bus.sent ++ event ∷ [] } in
            ap (λ g. (deliver H view timestamp g rounds).bus.sent)
              (forward_one-passed bus stats f name event now e
                ∙ ap (λ b. record (passed bus stats f name event now) { bus = b })
                    (publish-heard bus event heard))
            ∙ sent-deliver grown _ _ rounds heard
            ∙ append_assoc bus.sent (event ∷ []) _
            ∙ ap
                (λ b.
                  bus.sent
                  ++ survivors (b ∷ answers f event now rounds) ((name, event, now) ∷ rounds))
                (sym e)
      ]

  counts-deliver :
      (bus : EventBus F) (stats : RuntimeStats) (f : DedupFilter) (d e : ℕ)
      (rounds : List (String × Event F × ℕ))
      → Counted stats d e
      → Counted
          (deliver H view timestamp
            (record { bus = bus; stats = stats; dedup = some f })
            rounds).stats
          (d + count_of true (run f (stamped rounds)).0)
          (e + count_of false (run f (stamped rounds)).0)
  unfolding deliver run
  counts-deliver bus stats f d e [] c = omega arith
  counts-deliver bus stats f d e ((name, event, now) ∷ rounds) c =
      elim (Bool-cases (answer bus stats f name event now)) [
        | inl b ↦
            let rest =
              counts-deliver bus (record_event_deduplicated stats)
                (filter' bus stats f name event now) (d + 1) e rounds
                (unfold record_event_deduplicated in omega arith) in
            subst
              (λ g.
                Counted (deliver H view timestamp g rounds).stats
                  (d + count_of true (run f (stamped ((name, event, now) ∷ rounds))).0)
                  (e + count_of false (run f (stamped ((name, event, now) ∷ rounds))).0))
              (sym (forward_one-dropped bus stats f name event now b)) (rw b (omega (arith, rest)))
        | inr b ↦
            let rest =
              counts-deliver (publish bus event) (record_event_for stats name)
                (filter' bus stats f name event now) d (e + 1) rounds
                (unfold record_event_for in omega arith) in
            subst
              (λ g.
                Counted (deliver H view timestamp g rounds).stats
                  (d + count_of true (run f (stamped ((name, event, now) ∷ rounds))).0)
                  (e + count_of false (run f (stamped ((name, event, now) ∷ rounds))).0))
              (sym (forward_one-passed bus stats f name event now b)) (rw b (omega (arith, rest)))
      ]

  -- With a fresh filter and at least one receiver, the bus gets exactly the events that the
  -- history lets through (`expected`), in the order in which they come, however the tasks of
  -- several adapters take turns.
  pub sent-deliver-expected :
      (bus : EventBus F) (stats : RuntimeStats) (secs start : ℕ)
      (rounds : List (String × Event F × ℕ))
      → nat_eq bus.receiver_count 0 ≡ false
      → Ascending start (stamped rounds)
      → (deliver H view timestamp
          (record { bus = bus; stats = stats; dedup = some (new secs start) })
          rounds).bus.sent
        ≡ bus.sent ++ survivors (expected (from_secs secs) [] (stamped rounds)) rounds
  sent-deliver-expected bus stats secs start rounds heard up =
      sent-deliver bus stats (new secs start) rounds heard
      ∙ ap (λ a. bus.sent ++ survivors a rounds) (run-expected secs start (stamped rounds) up)

  -- The counters tell the events passed on from those suppressed: from counts of `d` and `e` they
  -- go up by the number of events that the history drops and lets through, as 64-bit counters.
  counts-deliver-expected :
      (bus : EventBus F) (stats : RuntimeStats) (secs start d e : ℕ)
      (rounds : List (String × Event F × ℕ))
      → stats.events_deduplicated ≡ d % 2 ^ 64
      → stats.events_total ≡ e % 2 ^ 64
      → Ascending start (stamped rounds)
      → ((deliver H view timestamp
            (record { bus = bus; stats = stats; dedup = some (new secs start) })
            rounds).stats.events_deduplicated
          ≡ (d + count_of true (expected (from_secs secs) [] (stamped rounds))) % 2 ^ 64)
        × ((deliver H view timestamp
              (record { bus = bus; stats = stats; dedup = some (new secs start) })
              rounds).stats.events_total
            ≡ (e + count_of false (expected (from_secs secs) [] (stamped rounds))) % 2 ^ 64)
  counts-deliver-expected bus stats secs start d e rounds hd he up =
      subst
        (λ a.
          Counted
            (deliver H view timestamp
              (record { bus = bus; stats = stats; dedup = some (new secs start) }) rounds).stats
            (d + count_of true a) (e + count_of false a))
        (run-expected secs start (stamped rounds) up)
        (counts-deliver bus stats (new secs start) d e rounds (hd, he))
