-- ===== src/Dedup.antt =====
-- crates/ferroq-gateway/src/dedup.rs: the time-windowed filter that drops repeated events. Time is
-- in nanoseconds since a fixed instant; `duration_since` stops at 0, as `-` does here.
--
-- The clock is read before the lock of `seen` is taken, so calls of two tasks may come a moment out of
-- its order. That calls come in its order is a condition where it matters.
--
-- `maybe_evict` runs under the lock of `seen` alone, so nothing comes between its load of
-- `last_eviction_ns` and its `compare_exchange`, which therefore succeeds.
pub mod Fingerprint
pub mod History
pub mod Window
pub mod Counters
use ferroq.Prelude.{
  eq_ℕ, ℕ, ◌+◌, ◌-◌, ◌*◌, ◌%◌, ◌^◌, max, ltb, Bool, true, false, Option, none, some, List, [], ◌∷◌,
  if◌then◌else◌,
}
use ferroq.Prelude.HashMap
use ferroq.Prelude.HashMap.{HashMap}
use ferroq.Prelude.Int.{ℤ}
use ferroq.Core.External.{External}
use ferroq.Core.Event.{Event}
use Fingerprint.{Json, Hasher, fingerprint}

pub record DedupFilter : Type 0 where
  pub window : ℕ
  pub start : ℕ
  pub seen : HashMap ℕ ℕ
  pub duplicates : ℕ
  pub checked : ℕ
  pub last_eviction_ns : ℕ
  pub eviction_interval : ℕ

-- `Duration::from_secs`
abbrev pub from_secs : ℕ → ℕ
from_secs secs = secs * 1_000_000_000

-- `fetch_add(1)` on an `AtomicU64`
abbrev pub fetch_add : ℕ → ℕ
fetch_add n = (n + 1) % 2 ^ 64

unfoldable pub new : ℕ → ℕ → DedupFilter
new window_secs now = record {
  window = from_secs window_secs;
  start = now;
  seen = [];
  duplicates = 0;
  checked = 0;
  last_eviction_ns = 0;
  eviction_interval = from_secs (max window_secs 10);
}

unfoldable pub maybe_evict : DedupFilter → ℕ → DedupFilter
unfolding HashMap.retain
maybe_evict f now =
    let now_ns = (now - f.start) % 2 ^ 64 in
    let interval_ns = f.eviction_interval % 2 ^ 64 in
    if ltb (now_ns - f.last_eviction_ns) interval_ns then f else record f {
      seen = HashMap.retain (λ ts. ltb (now - ts) f.window) f.seen;
      last_eviction_ns = now_ns;
    }

-- The `else` of `is_duplicate`'s lookup and the case of an expired entry: both record the time.
unfoldable pub record_seen : DedupFilter → ℕ → ℕ → Bool × DedupFilter
unfolding maybe_evict HashMap.insert
record_seen f fp now = (false, maybe_evict (record f { seen = HashMap.insert fp now f.seen }) now)

-- The body of `is_duplicate` for an event whose fingerprint is `fp`, at the time `now`.
unfoldable pub check : DedupFilter → ℕ → ℕ → Bool × DedupFilter
unfolding record_seen HashMap.get
check f fp now =
    let f' = record f { checked = fetch_add f.checked } in
    elim (HashMap.get f.seen fp) [
      | some insert_time ↦
          if ltb (now - insert_time) f.window
          then (true, record f' { duplicates = fetch_add f.duplicates })
          else record_seen f' fp now
      | none ↦ record_seen f' fp now
    ]

module _ {F : External} (H : Hasher) (view : F.Value → Json) (timestamp : F.DateTime → ℤ) where
  unfoldable pub is_duplicate : DedupFilter → Event F → ℕ → Bool × DedupFilter
  is_duplicate f event now = check f (fingerprint H view timestamp event) now

-- The filter's answers to a sequence of calls, and the filter after them.
unfoldable pub run : DedupFilter → List (ℕ × ℕ) → List Bool × DedupFilter
run f [] = ([], f)
run f ((fp, now) ∷ calls) =
    let (dup, f') = check f fp now in let (answers, f'') = run f' calls in (dup ∷ answers, f'')
