-- ===== src/AdapterManager.antt =====
-- crates/ferroq-gateway/src/adapter_manager.rs: adding, removing and reconnecting adapters at run
-- time. A `JoinHandle` of a forwarding task is a number, `running` says which of the tasks have
-- not been aborted, and `next_handle` is the next number that `tokio::spawn` gives out. The
-- constructors of the two kinds of adapter are parameters.
pub mod Valid
pub mod Changes
pub mod Race
pub mod Names
use Prim.Native.String.{◌++◌}
use ferroq.Prelude.{
  ℕ, suc, String, Bool, true, false, ◌||◌, Option, none, some, List, [], ◌∷◌, map, ◌==◌, eq_String,
  nat_eq, if◌then◌else◌,
}
use ferroq.Prelude.HashMap
use ferroq.Prelude.HashMap.{HashMap}
use ferroq.Core.External.{External}
use ferroq.Core.Error.{GatewayError, internal, Result, ok, err, ◌>>=◌}
use ferroq.Core.Config.{BackendConfig}
use ferroq.Core.Adapter.{AdapterInfo, BackendAdapter}
use ferroq.Router
use ferroq.Router.{ApiRouter}

pub record LiveAdapter (F : External) (W : Type 0) : Type 0 where
  pub adapter : BackendAdapter F W
  pub forward_handle : ℕ

pub record AdapterManager (F : External) (W : Type 0) : Type 0 where
  pub router : ApiRouter F W
  pub live : HashMap String (LiveAdapter F W)
  pub running : ℕ → Bool
  pub next_handle : ℕ

-- `handle.abort()`, `tokio::spawn`
abbrev pub abort : ℕ → (ℕ → Bool) → ℕ → Bool
abort handle running h = if nat_eq h handle then false else running h

abbrev pub spawn : ℕ → (ℕ → Bool) → ℕ → Bool
spawn handle running h = if nat_eq h handle then true else running h

abbrev pub already_exists : String → GatewayError
already_exists name = internal ("adapter '" ++ (name ++ "' already exists"))

abbrev pub not_found : String → GatewayError
not_found name = internal ("adapter '" ++ (name ++ "' not found"))

abbrev pub unknown_type : String → GatewayError
unknown_type other = internal ("unknown backend type: " ++ other)

module _ {F : External} {W : Type 0} where
  unfoldable pub new : ApiRouter F W → AdapterManager F W
  new router = record { router = router; live = []; running = λ h. false; next_handle = 0 }

  -- `spawn_forwarder`, and the insertion of the handle under the name.
  unfoldable pub insert_live : AdapterManager F W → String → BackendAdapter F W → AdapterManager F W
  insert_live m name adapter = record m {
    live =
        HashMap.insert name (record { adapter = adapter; forward_handle = m.next_handle }) m.live;
    running = spawn m.next_handle m.running;
    next_handle = suc m.next_handle;
  }

  unfoldable pub register_running : AdapterManager F W → BackendAdapter F W → W → AdapterManager F W
  unfolding insert_live
  register_running m adapter w = insert_live m (adapter.info w).name adapter

  unfoldable pub has : AdapterManager F W → String → Bool
  has m name = HashMap.contains_key m.live name

  unfoldable pub list_names : AdapterManager F W → List String
  list_names m = map (λ e. e.0) m.live

  unfoldable pub adapters : AdapterManager F W → List (BackendAdapter F W)
  adapters m = map (λ e. e.1.adapter) m.live

  -- `add_adapter` from the connection on. A failed connection is only logged.
  unfoldable pub add_connected :
      AdapterManager F W → String → BackendAdapter F W → W → AdapterManager F W × W
  unfolding insert_live
  add_connected m name adapter w =
      let (_, w') = adapter.connect w in
      (insert_live (record m { router = Router.register m.router adapter w' }) name adapter, w')

  -- `add_adapter` up to there: the check for the name, and the construction by backend type.
  module _ (lagrange : String → BackendConfig → BackendAdapter F W)
      (official : String → BackendConfig → Result (BackendAdapter F W)) where
    unfoldable pub create : String → BackendConfig → Result (BackendAdapter F W)
    create name config =
        if config.backend_type == "lagrange" || config.backend_type == "napcat"
        then ok (lagrange name config)
        else if config.backend_type == "official"
        then official name config
        else err (unknown_type config.backend_type)

    unfoldable pub prepare :
        AdapterManager F W → String → BackendConfig → Result (BackendAdapter F W)
    prepare m name config =
        if HashMap.contains_key m.live name then err (already_exists name) else create name config

    abbrev pub finish :
        AdapterManager F W
        → String
        → W
        → Result (BackendAdapter F W)
        → Result (Unit {0}) × AdapterManager F W × W
    finish m name w (err e) = (err e, m, w)
    finish m name w (ok adapter) = let (m', w') = add_connected m name adapter w in (ok tt, m', w')

    unfoldable pub add_adapter :
        AdapterManager F W → String → BackendConfig → W → Result (Unit {0}) × AdapterManager F W × W
    add_adapter m name config w = finish m name w (prepare m name config)

  -- A failed disconnection is only logged, here and below.
  unfoldable pub remove_adapter :
      AdapterManager F W → String → W → Result (Unit {0}) × AdapterManager F W × W
  remove_adapter m name w = elim (HashMap.get m.live name) [
    | none ↦ (err (not_found name), m, w)
    | some entry ↦
        let (_, w') = entry.adapter.disconnect w in
        (
          ok tt,
          record m {
            router = (Router.unregister m.router name w').1;
            live = HashMap.remove name m.live;
            running = abort entry.forward_handle m.running;
          },
          w',
        )
  ]

  -- `reconnect_adapter`, with nothing else done to the manager while it waits.
  unfoldable pub reconnect_adapter :
      AdapterManager F W → String → W → Result (Unit {0}) × AdapterManager F W × W
  unfolding insert_live
  reconnect_adapter m name w = elim (HashMap.get m.live name) [
    | none ↦ (err (not_found name), m, w)
    | some entry ↦
        let (_, w₁) = entry.adapter.disconnect w in
        let (_, w₂) = entry.adapter.connect w₁ in
        let aborted = record m { running = abort entry.forward_handle m.running } in
        (ok tt, insert_live aborted name entry.adapter, w₂)
  ]

  -- The loop of `shutdown` over the drained entries.
  unfoldable pub stop_all : HashMap String (LiveAdapter F W) → (ℕ → Bool) → W → (ℕ → Bool) × W
  stop_all [] running w = (running, w)
  stop_all ((name, entry) ∷ entries) running w =
      stop_all entries (abort entry.forward_handle running) (entry.adapter.disconnect w).1

  unfoldable pub shutdown : AdapterManager F W → W → AdapterManager F W × W
  unfolding stop_all
  shutdown m w =
      let (running, w') = stop_all m.live m.running w in
      (record m { live = []; running = running }, w')
