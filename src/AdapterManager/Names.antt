-- ===== src/AdapterManager/Names.antt =====
-- crates/ferroq-gateway/src/adapter_manager.rs: what the operations do to the names of a manager.
use ferroq.Prelude.{
  ◌≡◌, refl, sym, ap, ◌∙◌, String, Bool, true, false, ◌&&◌, ◌||◌, not, none, some, eq_String, ◌==◌,
  ==_iff, Bool-cases, inl, inr,
}
use ferroq.Prelude.HashMap
use ferroq.Prelude.HashMap.{HashMap, get-insert, get-remove}
use ferroq.Core.External.{External}
use ferroq.Core.Config.{BackendConfig}
use ferroq.Core.Error.{Result, ok, err}
use ferroq.Core.Adapter.{BackendAdapter}
use ferroq.Router
use ferroq.AdapterManager.{
  abort, LiveAdapter, AdapterManager, insert_live, add_connected, prepare, create, remove_adapter,
  reconnect_adapter, has, already_exists, not_found,
}

module _ {F : External} {W : Type 0} where
  has-insert_live :
      (m : AdapterManager F W) (name n : String) (a : BackendAdapter F W)
      → (name == n) || has m n ≡ has (insert_live m name a) n
  unfolding has insert_live HashMap.contains_key
  has-insert_live m name n a = elim (Bool-cases (name == n)) [
    | inl e ↦
        rw (e, get-insert name n (record { adapter = a; forward_handle = m.next_handle }) m.live, e)
          refl
    | inr e ↦
        rw (e, get-insert name n (record { adapter = a; forward_handle = m.next_handle }) m.live, e)
          refl
  ]

  -- A name that is there already.
  pub again :
      (m : AdapterManager F W) (name n : String) (a : BackendAdapter F W)
      → has m name ≡ true
      → has m n ≡ has (insert_live m name a) n
  again m name n a h =
      elim (Bool-cases (name == n)) [
        | inl e ↦
            ap (has m) (sym ((==_iff name n).0 e)) ∙ h ∙ sym (ap (λ (b : Bool). b || has m n) e)
        | inr e ↦ sym (ap (λ (b : Bool). b || has m n) e)
      ]
      ∙ has-insert_live m name n a

  unfoldable pub removed : AdapterManager F W → String → LiveAdapter F W → W → AdapterManager F W
  removed m name entry w = record m {
    router = (Router.unregister m.router name (entry.adapter.disconnect w).1).1;
    live = HashMap.remove name m.live;
    running = abort entry.forward_handle m.running;
  }

  pub remove_there :
      (m : AdapterManager F W) (name : String) (entry : LiveAdapter F W) (w : W)
      → HashMap.get m.live name ≡ some entry
      → remove_adapter m name w ≡ (ok tt, removed m name entry w, (entry.adapter.disconnect w).1)
  unfolding removed remove_adapter
  remove_there m name entry w e = rw (e, remove_adapter) refl

  pub remove_missing :
      (m : AdapterManager F W) (name : String) (w : W)
      → HashMap.get m.live name ≡ none
      → remove_adapter m name w ≡ (err (not_found name), m, w)
  unfolding remove_adapter
  remove_missing m name w e = rw (e, remove_adapter) refl

  pub reconnect_there :
      (m : AdapterManager F W) (name : String) (entry : LiveAdapter F W) (w : W)
      → HashMap.get m.live name ≡ some entry
      → reconnect_adapter m name w ≡ (
        ok tt,
        insert_live
            (record m { running = abort entry.forward_handle m.running })
            name
            entry.adapter,
        (entry.adapter.connect (entry.adapter.disconnect w).1).1,
      )
  unfolding reconnect_adapter insert_live
  reconnect_there m name entry w e = rw (e, reconnect_adapter) refl

  pub reconnect_missing :
      (m : AdapterManager F W) (name : String) (w : W)
      → HashMap.get m.live name ≡ none
      → reconnect_adapter m name w ≡ (err (not_found name), m, w)
  unfolding reconnect_adapter
  reconnect_missing m name w e = rw (e, reconnect_adapter) refl

  pub has-remove :
      (live : HashMap String (LiveAdapter F W)) (name n : String)
      → not (name == n) && HashMap.contains_key live n
        ≡ HashMap.contains_key (HashMap.remove name live) n
  unfolding HashMap.contains_key
  has-remove live name n = elim (Bool-cases (name == n)) [
    | inl e ↦ rw (e, get-remove name n live, e) refl
    | inr e ↦ rw (e, get-remove name n live, e) refl
  ]

  module _ (lagrange : String → BackendConfig → BackendAdapter F W)
      (official : String → BackendConfig → Result (BackendAdapter F W)) where
    pub prepare_taken :
        (m : AdapterManager F W) (name : String) (backend : BackendConfig)
        → has m name ≡ true
        → prepare lagrange official m name backend ≡ err (already_exists name)
    unfolding prepare has
    prepare_taken m name backend h = rw h refl

    pub prepare_free :
        (m : AdapterManager F W) (name : String) (backend : BackendConfig)
        → has m name ≡ false
        → prepare lagrange official m name backend ≡ create lagrange official name backend
    unfolding prepare has
    prepare_free m name backend h = rw h refl

    pub added-has :
        (names : String → Bool) (m : AdapterManager F W) (name : String) (a : BackendAdapter F W)
        (w : W)
        → ((n : String) → names n ≡ has m n)
        → (n : String) → (name == n) || names n ≡ has (add_connected m name a w).0 n
    unfolding add_connected has
    added-has names m name a w same n =
        ap (λ (b : Bool). (name == n) || b) (same n)
        ∙ has-insert_live (record m { router = Router.register m.router a (a.connect w).1 }) name n
            a
