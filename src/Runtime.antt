-- ===== src/Runtime.antt =====
-- crates/ferroq-gateway/src/runtime.rs: what `start` does with the adapters, and a round of its
-- stats refresher. The clock in seconds and in milliseconds is a function of the world. Nothing
-- else reaches the router during a round here; Router/Stale is about what may.
pub mod Start
pub mod Refresh
pub mod Persist
use ferroq.Prelude.{
  ℕ, suc, ◌-◌, ◌%◌, ◌^◌, String, Bool, true, false, Option, none, some, List, [], ◌∷◌, map, ◌==◌,
  eq_String, if◌then◌else◌,
}
use ferroq.Core.External.{External}
use ferroq.Core.Adapter.{AdapterInfo, BackendAdapter, is_connected}
use ferroq.Router
use ferroq.Router.{ApiRouter, associate_self_id}
use ferroq.Stats
use ferroq.Stats.{AdapterSnapshot, RuntimeStats}
use ferroq.AdapterManager
use ferroq.AdapterManager.{AdapterManager, register_running}

-- `iter().position(|n| n == name)`, counted from `i`.
unfoldable pub position : String → ℕ → List String → Option ℕ
position name i [] = none
position name i (n ∷ names) =
    let rest = position name (suc i) names in if n == name then some i else rest

-- The snapshot of an adapter, with what a health check said.
abbrev snapshot_of : AdapterInfo → Bool → Option ℕ → Option ℕ → AdapterSnapshot
snapshot_of info healthy health_check_ms last_health_check = record {
  name = info.name;
  backend_type = info.backend_type;
  url = info.url;
  state = info.state;
  self_id = info.self_id;
  healthy = healthy;
  health_check_ms = health_check_ms;
  last_health_check = last_health_check;
  events_total = 0;
  api_calls_total = 0;
}

module _ {F : External} {W : Type 0} where
  -- The loop of `start` over the adapters. A failed connection is only logged.
  unfoldable pub start_adapters :
      AdapterManager F W → List (BackendAdapter F W) → W → AdapterManager F W × W
  unfolding register_running
  start_adapters m [] w = (m, w)
  start_adapters m (adapter ∷ adapters) w =
      let (_, w') = adapter.connect w in
      let routed = record m { router = Router.register m.router adapter w' } in
      start_adapters (register_running routed adapter w') adapters w'

  -- The snapshots at the end of `start`.
  unfoldable pub initial_snapshots : List (BackendAdapter F W) → W → List AdapterSnapshot
  initial_snapshots adapters w =
      map (λ a. snapshot_of (a.info w) (is_connected (a.info w).state) none none) adapters

  -- `router_names` is the list of the names at the start of the round.
  unfoldable pub associate_known : List String → AdapterInfo → ApiRouter F W → ApiRouter F W
  unfolding position
  associate_known router_names info r = elim info.self_id [
    | none ↦ r
    | some self_id ↦ elim (position info.name 0 router_names) [
      | none ↦ r
      | some index ↦ associate_self_id r self_id index
    ]
  ]

  module _ (secs millis : W → ℕ) where
    unfoldable pub refresh_each :
        List String
        → List (BackendAdapter F W)
        → ApiRouter F W
        → W
        → List AdapterSnapshot × ApiRouter F W × W
    unfolding associate_known
    refresh_each router_names [] r w = ([], r, w)
    refresh_each router_names (a ∷ adapters) r w =
        let info = a.info w in
        let r' = associate_known router_names info r in
        let (healthy, w') = a.health_check w in
        let latency = (millis w' - millis w) % 2 ^ 64 in
        let (snapshots, r'', w'') = refresh_each router_names adapters r' w' in
        (snapshot_of info healthy (some latency) (some (secs w')) ∷ snapshots, r'', w'')

    -- One round of the refresher's loop.
    unfoldable pub refresh :
        AdapterManager F W → RuntimeStats → W → AdapterManager F W × RuntimeStats × W
    unfolding refresh_each
    refresh m stats w =
        let names = Router.list_names m.router w in
        let (snapshots, r, w') = refresh_each names (AdapterManager.adapters m) m.router w in
        (record m { router = r }, Stats.update_adapters stats snapshots, w')
