-- ===== src/Stats/Totals.antt =====
-- crates/ferroq-gateway/src/stats.rs: what the counters say after any traffic.
use ferroq.Prelude.{
  ℕ, zero, suc, ◌+◌, ◌%◌, ◌^◌, ◌<◌, ◌≡◌, refl, ap, ◌∙◌, String, Bool, true, false, Option, none,
  some, List, [], ◌∷◌, map, arith, ◌==◌, ==_iff, eq_String, if◌then◌else◌, Bool-cases, inl, inr,
  ltb,
}
use mathlib.Core.Path.{ap₂}
use ferroq.Prelude.HashMap.{HashMap, get-insert}
use ferroq.Stats.{
  AdapterSnapshot, RuntimeStats, with_storage, record_event_for, record_api_call_for, ws_connect,
  ws_disconnect, update_adapters, count_for, bump, merge_counts, health, fetch_add,
}

-- An event or an API call of the adapter with that name.
pub data Traffic : Type 0 where
  event call : String → Traffic

unfoldable pub after : RuntimeStats → List Traffic → RuntimeStats
unfolding record_event_for record_api_call_for
after s [] = s
after s (event name ∷ traffic) = after (record_event_for s name) traffic
after s (call name ∷ traffic) = after (record_api_call_for s name) traffic

abbrev pub events_of : String → List Traffic → ℕ
events_of name [] = 0
events_of name (event n ∷ traffic) =
    if n == name then suc (events_of name traffic) else events_of name traffic
events_of name (call n ∷ traffic) = events_of name traffic

abbrev pub calls_of : String → List Traffic → ℕ
calls_of name [] = 0
calls_of name (event n ∷ traffic) = calls_of name traffic
calls_of name (call n ∷ traffic) =
    if n == name then suc (calls_of name traffic) else calls_of name traffic

count_for-bump :
    (m : HashMap String ℕ) (n name : String)
    → count_for (bump m n) name
      ≡ (if n == name then fetch_add (count_for m n) else count_for m name)
unfolding bump
count_for-bump m n name =
    rw (get-insert n name (fetch_add (count_for m n)) m, count_for) (ground arith)

events-after :
    (s : RuntimeStats) (name : String) (k : ℕ) (traffic : List Traffic)
    → count_for s.per_adapter_events name ≡ k % 2 ^ 64
    → count_for (after s traffic).per_adapter_events name ≡ (k + events_of name traffic) % 2 ^ 64
unfolding after
events-after s name k [] h = omega arith
events-after s name k (call n ∷ traffic) h = events-after (record_api_call_for s n) name k traffic h
events-after s name k (event n ∷ traffic) h = elim (Bool-cases (n == name)) [
  | inl e ↦
      let same : n ≡ name = (==_iff n name).0 e in
      rw e (
        events-after (record_event_for s n) name (k + 1) traffic (
          count_for-bump s.per_adapter_events n name
          ∙ rw e (ap (λ x. fetch_add (count_for s.per_adapter_events x)) same ∙ omega arith))
        ∙ ap (λ (x : ℕ). x % 2 ^ 64) (omega arith))
  | inr e ↦ rw e (
      events-after (record_event_for s n) name k traffic
        (count_for-bump s.per_adapter_events n name ∙ rw e h))
]

calls-after :
    (s : RuntimeStats) (name : String) (k : ℕ) (traffic : List Traffic)
    → count_for s.per_adapter_api_calls name ≡ k % 2 ^ 64
    → count_for (after s traffic).per_adapter_api_calls name ≡ (k + calls_of name traffic) % 2 ^ 64
unfolding after
calls-after s name k [] h = omega arith
calls-after s name k (event n ∷ traffic) h = calls-after (record_event_for s n) name k traffic h
calls-after s name k (call n ∷ traffic) h = elim (Bool-cases (n == name)) [
  | inl e ↦
      let same : n ≡ name = (==_iff n name).0 e in
      rw e (
        calls-after (record_api_call_for s n) name (k + 1) traffic (
          count_for-bump s.per_adapter_api_calls n name
          ∙ rw e (ap (λ x. fetch_add (count_for s.per_adapter_api_calls x)) same ∙ omega arith))
        ∙ ap (λ (x : ℕ). x % 2 ^ 64) (omega arith))
  | inr e ↦ rw e (
      calls-after (record_api_call_for s n) name k traffic
        (count_for-bump s.per_adapter_api_calls n name ∙ rw e h))
]

adapters-after :
    (s : RuntimeStats) (traffic : List Traffic) → (after s traffic).adapters ≡ s.adapters
unfolding after
adapters-after s [] = refl
adapters-after s (event n ∷ traffic) = adapters-after (record_event_for s n) traffic
adapters-after s (call n ∷ traffic) = adapters-after (record_api_call_for s n) traffic

abbrev pub started : Bool → List AdapterSnapshot → RuntimeStats
started storage snapshots = update_adapters (with_storage storage) snapshots

abbrev pub with_counts : List Traffic → AdapterSnapshot → AdapterSnapshot
with_counts traffic a = record a {
  events_total = events_of a.name traffic % 2 ^ 64;
  api_calls_total = calls_of a.name traffic % 2 ^ 64;
}

merge_counts-after :
    (storage : Bool) (snapshots : List AdapterSnapshot) (traffic : List Traffic)
    (a : AdapterSnapshot)
    → merge_counts (after (started storage snapshots) traffic) a ≡ with_counts traffic a
unfolding merge_counts with_storage update_adapters
merge_counts-after storage snapshots traffic a =
    let s = started storage snapshots in
    let events : count_for (after s traffic).per_adapter_events a.name
        ≡ events_of a.name traffic % 2 ^ 64 =
      events-after s a.name 0 traffic refl ∙ omega arith in
    let calls : count_for (after s traffic).per_adapter_api_calls a.name
        ≡ calls_of a.name traffic % 2 ^ 64 =
      calls-after s a.name 0 traffic refl ∙ omega arith in
    rw (events, calls) refl

map-merge_counts :
    (storage : Bool) (snapshots : List AdapterSnapshot) (traffic : List Traffic)
    (shown : List AdapterSnapshot)
    → map (merge_counts (after (started storage snapshots) traffic)) shown
      ≡ map (with_counts traffic) shown
map-merge_counts storage snapshots traffic [] = refl
map-merge_counts storage snapshots traffic (a ∷ shown) =
    ap₂ ◌∷◌ (merge_counts-after storage snapshots traffic a)
      (map-merge_counts storage snapshots traffic shown)

-- The health report shows every snapshot in its place, each with the number of events and of API
-- calls that came under its name, in any mixture of the traffic of all adapters.
pub health-after :
    (storage : Bool) (snapshots : List AdapterSnapshot) (traffic : List Traffic)
    → (health (after (started storage snapshots) traffic)).adapters
      ≡ map (with_counts traffic) snapshots
unfolding health update_adapters
health-after storage snapshots traffic =
    ap (map (merge_counts (after (started storage snapshots) traffic)))
      (adapters-after (started storage snapshots) traffic)
    ∙ map-merge_counts storage snapshots traffic snapshots

-- The WebSocket gauge.
unfoldable pub sockets : RuntimeStats → List Bool → RuntimeStats
unfolding ws_connect ws_disconnect
sockets s [] = s
sockets s (true ∷ changes) = sockets (ws_connect s) changes
sockets s (false ∷ changes) = sockets (ws_disconnect s) changes

-- The connections left open of `n`, if no more are closed than are open, and at most 2^64 - 1 are
-- ever open.
unfoldable pub open_after : ℕ → List Bool → Option ℕ
open_after n [] = some n
open_after n (true ∷ changes) = if ltb (n + 1) (2 ^ 64) then open_after (n + 1) changes else none
open_after zero (false ∷ changes) = none
open_after (suc n) (false ∷ changes) = open_after n changes

gauge :
    (s : RuntimeStats) (n : ℕ) (changes : List Bool) (m : ℕ)
    → s.ws_connections ≡ n
    → n < 2 ^ 64
    → open_after n changes ≡ some m
    → (sockets s changes).ws_connections ≡ m
unfolding sockets open_after
gauge s n [] m e lt h = ground arith
gauge s n (true ∷ changes) m e lt h = elim (Bool-cases (ltb (n + 1) (2 ^ 64))) [
  | inl fits ↦ gauge (ws_connect s) (n + 1) changes m (ground arith) (ground arith) (rw fits at h)
  | inr full ↦ cc (rw full at h)
]
gauge s zero (false ∷ changes) m e lt h = cc
gauge s (suc n) (false ∷ changes) m e lt h =
    gauge (ws_disconnect s) n changes m (ground arith) (omega arith) h

-- Over any order of connects and disconnects, none of a connection that was not open, the gauge
-- is exactly the number of connections open.
pub sockets-open_after :
    (s : RuntimeStats) (changes : List Bool) (m : ℕ)
    → s.ws_connections < 2 ^ 64
    → open_after s.ws_connections changes ≡ some m
    → (sockets s changes).ws_connections ≡ m
sockets-open_after s changes m lt h = gauge s s.ws_connections changes m refl lt h
