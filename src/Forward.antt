-- ===== src/Forward.antt =====
-- crates/ferroq-gateway/src/forward.rs and bus.rs: from an adapter's channel, through the filter
-- and the counters, to the event bus.
pub mod Delivery
use ferroq.Prelude.{
  ℕ, zero, suc, ◌+◌, String, Bool, true, false, Option, none, some, List, [], ◌∷◌, ◌++◌, nat_eq,
  if◌then◌else◌,
}
use ferroq.Prelude.Int.{ℤ}
use ferroq.Core.External.{External}
use ferroq.Core.Event.{Event}
use ferroq.Dedup.{DedupFilter, is_duplicate}
use ferroq.Dedup.Fingerprint.{Json, Hasher}
use ferroq.Stats
use ferroq.Stats.{RuntimeStats}

-- The `tokio::sync::broadcast` channel of the bus: the number of its receivers, and all that was
-- sent through it. What a slow receiver misses is that channel's affair.
pub record EventBus (F : External) : Type 0 where
  pub receiver_count : ℕ
  pub sent : List (Event F)

module _ {F : External} where
  unfoldable pub new_bus : EventBus F
  new_bus = record { receiver_count = 0; sent = [] }

  unfoldable pub publish : EventBus F → Event F → EventBus F
  publish bus event =
      if nat_eq bus.receiver_count 0 then bus else record bus { sent = bus.sent ++ event ∷ [] }

  unfoldable pub subscribe : EventBus F → EventBus F
  subscribe bus = record bus { receiver_count = suc bus.receiver_count }

-- What the forwarding tasks of all adapters share.
pub record Shared (F : External) : Type 0 where
  pub bus : EventBus F
  pub stats : RuntimeStats
  pub dedup : Option DedupFilter

module _ {F : External} (H : Hasher) (view : F.Value → Json) (timestamp : F.DateTime → ℤ) where
  -- The part of the loop body behind the check.
  unfoldable pub pass_on : Shared F → String → Event F → Shared F
  pass_on g adapter_name event = record g {
    bus = publish g.bus event;
    stats = Stats.record_event_for g.stats adapter_name;
  }

  -- The loop body of `forward_events`, for one event received at the time `now`. The task's own
  -- `count` only serves its log lines.
  unfoldable pub forward_one : Shared F → String → Event F → ℕ → Shared F
  forward_one g adapter_name event now = elim g.dedup [
    | none ↦ pass_on g adapter_name event
    | some filter ↦
        let (dup, filter') = is_duplicate H view timestamp filter event now in
        let g' = record g { dedup = some filter' } in
        if dup
        then record g' { stats = Stats.record_event_deduplicated g.stats }
        else pass_on g' adapter_name event
  ]

  -- `forward_events` on all that its channel yields until it is closed.
  unfoldable pub forward_events : Shared F → String → List (Event F × ℕ) → Shared F
  forward_events g adapter_name [] = g
  forward_events g adapter_name ((event, now) ∷ received) =
      forward_events (forward_one g adapter_name event now) adapter_name received

  -- The rounds of the tasks of several adapters, in the order in which they happen.
  unfoldable pub deliver : Shared F → List (String × Event F × ℕ) → Shared F
  deliver g [] = g
  deliver g ((adapter_name, event, now) ∷ rounds) =
      deliver (forward_one g adapter_name event now) rounds
