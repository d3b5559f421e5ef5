-- ===== src/AdapterManager/Changes.antt =====
-- crates/ferroq-gateway/src/adapter_manager.rs: what an addition and a removal change, and what
-- they leave alone.
use ferroq.Prelude.{
  ◌≡◌, ◌≢◌, refl, ap, String, true, false, eq_String, Bool-cases, Option-cases, inl, inr, is_some,
}
use ferroq.Prelude.HashMap
use ferroq.Prelude.HashMap.{HashMap, get-insert_self, get-insert_ne, get-remove_self, get-remove_ne}
use ferroq.Core.External.{External}
use ferroq.Core.Config.{BackendConfig}
use ferroq.Core.Error.{GatewayError, Result, ok, err}
use ferroq.Core.Adapter.{BackendAdapter}
use ferroq.Router
use ferroq.Router.Unregister.{erase_first, list_names-unregister}
use ferroq.AdapterManager.{
  LiveAdapter, AdapterManager, insert_live, add_connected, add_adapter, prepare, create, finish,
  remove_adapter, has,
}

module _ {F : External} {W : Type 0} where
  -- The entries of all names but one are the same.
  abbrev pub SameBut :
      String → HashMap String (LiveAdapter F W) → HashMap String (LiveAdapter F W) → Type 0
  SameBut name live live' = (n : String) → name ≢ n → HashMap.get live' n ≡ HashMap.get live n

  -- A removal of an adapter that is there succeeds: the name is free afterwards, every other entry is as it was, and the router has lost the first of
  -- its adapters with that name and no other.
  pub remove_adapter_lem :
      (m : AdapterManager F W) (name : String) (w : W)
      → has m name ≡ true
      → ((remove_adapter m name w).0 ≡ ok tt)
        × (has (remove_adapter m name w).1 name ≡ false)
        × SameBut name m.live (remove_adapter m name w).1.live
        × (Router.list_names (remove_adapter m name w).1.router (remove_adapter m name w).2
            ≡ erase_first name (Router.list_names m.router (remove_adapter m name w).2))
  unfolding remove_adapter has HashMap.contains_key
  remove_adapter_lem m name w h = elim (Option-cases (HashMap.get m.live name)) [
    | inl e ↦ cc (ap is_some e)
    | inr (entry, e) ↦
        rw (e, remove_adapter)
          (
            refl,
            ap is_some (get-remove_self name m.live),
            λ n other. get-remove_ne name n m.live other,
            list_names-unregister m.router name (entry.adapter.disconnect w).1,
          )
  ]

  module _ (lagrange : String → BackendConfig → BackendAdapter F W)
      (official : String → BackendConfig → Result (BackendAdapter F W)) where
    finish_lem :
        (m : AdapterManager F W) (name : String) (w : W) (r : Result (BackendAdapter F W))
        → ((e : GatewayError)
            → (finish lagrange official m name w r).0 ≡ err e
            → ((finish lagrange official m name w r).1 ≡ m)
              × ((finish lagrange official m name w r).2 ≡ w))
          × ((finish lagrange official m name w r).0 ≡ ok tt
              → (a : BackendAdapter F W) × (r ≡ ok a)
                × ((finish lagrange official m name w r).2 ≡ (a.connect w).1)
                × (has (finish lagrange official m name w r).1 name ≡ true)
                × SameBut name m.live (finish lagrange official m name w r).1.live
                × ((finish lagrange official m name w r).1.router
                    ≡ Router.register m.router a (a.connect w).1))
    unfolding add_connected insert_live has HashMap.contains_key
    finish_lem m name w (err e) = (λ e' h. (refl, refl), λ h. cc)
    finish_lem m name w (ok a) = (
      λ e' h. cc,
      λ h. (
        a,
        refl,
        refl,
        ap is_some (get-insert_self name _ m.live),
        λ n other. get-insert_ne name n _ m.live other,
        refl,
      ),
    )

    -- An addition that fails leaves the manager and the world as they were.
    pub add_adapter-err :
        (m : AdapterManager F W) (name : String) (config : BackendConfig) (w : W) (e : GatewayError)
        → (add_adapter lagrange official m name config w).0 ≡ err e
        → ((add_adapter lagrange official m name config w).1 ≡ m)
          × ((add_adapter lagrange official m name config w).2 ≡ w)
    unfolding add_adapter
    add_adapter-err m name config w e h =
        (finish_lem m name w (prepare lagrange official m name config)).0 e h

    prepare-ok :
        (m : AdapterManager F W) (name : String) (config : BackendConfig) (a : BackendAdapter F W)
        → prepare lagrange official m name config ≡ ok a
        → (has m name ≡ false) × (create lagrange official name config ≡ ok a)
    unfolding prepare has
    prepare-ok m name config a h = elim (Bool-cases (HashMap.contains_key m.live name)) [
      | inl e ↦ cc (rw e at h)
      | inr e ↦ (e, rw e at h)
    ]

    -- An addition that succeeds took a free name and a known kind of backend, connected the new
    -- adapter once, put it under its name beside the other entries, and registered it with the
    -- router after the connection, whether or not that was successful.
    pub add_adapter-ok :
        (m : AdapterManager F W) (name : String) (config : BackendConfig) (w : W)
        → (add_adapter lagrange official m name config w).0 ≡ ok tt
        → (a : BackendAdapter F W) × (create lagrange official name config ≡ ok a)
          × (has m name ≡ false)
          × (has (add_adapter lagrange official m name config w).1 name ≡ true)
          × SameBut name m.live (add_adapter lagrange official m name config w).1.live
          × ((add_adapter lagrange official m name config w).1.router
              ≡ Router.register m.router a (a.connect w).1)
          × ((add_adapter lagrange official m name config w).2 ≡ (a.connect w).1)
    unfolding add_adapter
    add_adapter-ok m name config w h =
        let (a, made, world, there, others, routed) =
          (finish_lem m name w (prepare lagrange official m name config)).1 h in
        let (free, built) = prepare-ok m name config a made in
        (a, built, free, there, others, routed, world)
