-- ===== src/Stats.antt =====
-- crates/ferroq-gateway/src/stats.rs: the counters of the gateway and the health report. The
-- counters are `AtomicU64`s, which wrap; the start time, the uptime and the version, which depend
-- on the clock and the build, are left out of the report.
pub mod Totals
use ferroq.Prelude.{
  ℕ, suc, ◌+◌, ◌-◌, ◌%◌, ◌^◌, String, Bool, true, false, Option, none, some, List, [], ◌∷◌, map,
  length, eq_String, if◌then◌else◌,
}
use ferroq.Prelude.Int.{ℤ}
use ferroq.Prelude.HashMap
use ferroq.Prelude.HashMap.{HashMap}
use ferroq.Core.Adapter.{AdapterState}

pub record AdapterSnapshot : Type 0 where
  pub name : String
  pub backend_type : String
  pub url : String
  pub state : AdapterState
  pub self_id : Option ℤ
  pub healthy : Bool
  pub health_check_ms : Option ℕ
  pub last_health_check : Option ℕ
  pub events_total : ℕ
  pub api_calls_total : ℕ

pub record RuntimeStats : Type 0 where
  pub events_total : ℕ
  pub api_calls_total : ℕ
  pub ws_connections : ℕ
  pub ws_connections_total : ℕ
  pub messages_stored : ℕ
  pub events_deduplicated : ℕ
  pub ws_events_dropped : ℕ
  pub ws_api_rejected : ℕ
  pub storage_enabled : Bool
  pub adapters : List AdapterSnapshot
  pub per_adapter_events : HashMap String ℕ
  pub per_adapter_api_calls : HashMap String ℕ

pub record HealthResponse : Type 0 where
  pub status : String
  pub events_total : ℕ
  pub events_deduplicated : ℕ
  pub ws_events_dropped : ℕ
  pub ws_api_rejected : ℕ
  pub api_calls_total : ℕ
  pub ws_connections : ℕ
  pub ws_connections_total : ℕ
  pub messages_stored : ℕ
  pub storage_enabled : Bool
  pub healthy_adapters : ℕ
  pub total_adapters : ℕ
  pub adapters : List AdapterSnapshot

-- `fetch_add(1)` and `fetch_sub(1)` of an `AtomicU64`
abbrev pub fetch_add : ℕ → ℕ
fetch_add n = (n + 1) % 2 ^ 64

abbrev pub fetch_sub : ℕ → ℕ
fetch_sub n = (n + 2 ^ 64 - 1) % 2 ^ 64

-- `map.get(name).copied().unwrap_or(0)`
unfoldable pub count_for : HashMap String ℕ → String → ℕ
unfolding HashMap.get
count_for m name = elim (HashMap.get m name) [ none ↦ 0 | some n ↦ n ]

-- `*map.entry(name).or_insert(0) += 1`, with the overflow of a release build.
unfoldable pub bump : HashMap String ℕ → String → HashMap String ℕ
unfolding count_for HashMap.insert
bump m name = HashMap.insert name (fetch_add (count_for m name)) m

unfoldable pub with_storage : Bool → RuntimeStats
with_storage storage_enabled = record {
  events_total = 0;
  api_calls_total = 0;
  ws_connections = 0;
  ws_connections_total = 0;
  messages_stored = 0;
  events_deduplicated = 0;
  ws_events_dropped = 0;
  ws_api_rejected = 0;
  storage_enabled = storage_enabled;
  adapters = [];
  per_adapter_events = [];
  per_adapter_api_calls = [];
}

unfoldable pub new : RuntimeStats
unfolding with_storage
new = with_storage false

unfoldable pub record_event : RuntimeStats → RuntimeStats
record_event s = record s { events_total = fetch_add s.events_total }

unfoldable pub record_event_for : RuntimeStats → String → RuntimeStats
unfolding bump
record_event_for s name = record s {
  events_total = fetch_add s.events_total;
  per_adapter_events = bump s.per_adapter_events name;
}

unfoldable pub record_api_call : RuntimeStats → RuntimeStats
record_api_call s = record s { api_calls_total = fetch_add s.api_calls_total }

unfoldable pub record_api_call_for : RuntimeStats → String → RuntimeStats
unfolding bump
record_api_call_for s name = record s {
  api_calls_total = fetch_add s.api_calls_total;
  per_adapter_api_calls = bump s.per_adapter_api_calls name;
}

unfoldable pub ws_connect : RuntimeStats → RuntimeStats
ws_connect s = record s {
  ws_connections = fetch_add s.ws_connections;
  ws_connections_total = fetch_add s.ws_connections_total;
}

unfoldable pub ws_disconnect : RuntimeStats → RuntimeStats
ws_disconnect s = record s { ws_connections = fetch_sub s.ws_connections }

unfoldable pub record_message_stored : RuntimeStats → RuntimeStats
record_message_stored s = record s { messages_stored = fetch_add s.messages_stored }

unfoldable pub record_event_deduplicated : RuntimeStats → RuntimeStats
record_event_deduplicated s = record s { events_deduplicated = fetch_add s.events_deduplicated }

unfoldable pub record_ws_event_dropped : RuntimeStats → RuntimeStats
record_ws_event_dropped s = record s { ws_events_dropped = fetch_add s.ws_events_dropped }

unfoldable pub record_ws_api_rejected : RuntimeStats → RuntimeStats
record_ws_api_rejected s = record s { ws_api_rejected = fetch_add s.ws_api_rejected }

unfoldable pub update_adapters : RuntimeStats → List AdapterSnapshot → RuntimeStats
update_adapters s snapshots = record s { adapters = snapshots }

-- The closure that `health` maps over the snapshots.
unfoldable pub merge_counts : RuntimeStats → AdapterSnapshot → AdapterSnapshot
unfolding count_for
merge_counts s a = record a {
  events_total = count_for s.per_adapter_events a.name;
  api_calls_total = count_for s.per_adapter_api_calls a.name;
}

-- `filter(|a| a.healthy).count()`
unfoldable pub count_healthy : List AdapterSnapshot → ℕ
count_healthy [] = 0
count_healthy (a ∷ as') = if a.healthy then suc (count_healthy as') else count_healthy as'

unfoldable pub health : RuntimeStats → HealthResponse
unfolding merge_counts count_healthy
health s =
    let adapters = map (merge_counts s) s.adapters in
    record {
      status = "ok";
      events_total = s.events_total;
      events_deduplicated = s.events_deduplicated;
      ws_events_dropped = s.ws_events_dropped;
      ws_api_rejected = s.ws_api_rejected;
      api_calls_total = s.api_calls_total;
      ws_connections = s.ws_connections;
      ws_connections_total = s.ws_connections_total;
      messages_stored = s.messages_stored;
      storage_enabled = s.storage_enabled;
      healthy_adapters = count_healthy adapters;
      total_adapters = length adapters;
      adapters = adapters;
    }
