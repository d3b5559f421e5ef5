-- ===== src/AdapterManager/Valid.antt =====
-- crates/ferroq-gateway/src/adapter_manager.rs: the live adapters and the running forwarders are
-- the same, one to one.
use ferroq.Prelude.{
  ℕ, suc, ◌<◌, ◌≡◌, refl, ap, ◌∙◌, String, Bool, true, false, Option, none, some, arith, ◌==◌,
  ==_iff, ==_refl, eq_String, nat_eq, if◌then◌else◌, Bool-cases, Option-cases, inl, inr, is_some,
}
use ferroq.Prelude.HashMap
use ferroq.Prelude.HashMap.{HashMap, get-insert, get-remove, insert-remove}
use mathlib.Core.Path.{subst}
use ferroq.Core.External.{External}
use ferroq.Core.Config.{BackendConfig}
use ferroq.Core.Error.{Result, ok, err}
use ferroq.Core.Adapter.{BackendAdapter}
use ferroq.Router.{ApiRouter}
use ferroq.AdapterManager.{
  LiveAdapter, AdapterManager, abort, spawn, new, insert_live, add_connected, add_adapter, prepare,
  finish, remove_adapter, reconnect_adapter, create,
}

module _ {F : External} {W : Type 0} where
  abbrev handle : Option (LiveAdapter F W) → Option ℕ
  handle none = none
  handle (some entry) = some entry.forward_handle

  -- The handle of the entry of a name.
  unfoldable pub handle_of : HashMap String (LiveAdapter F W) → String → Option ℕ
  handle_of live name = handle (HashMap.get live name)

  handle-if :
      (b : Bool) (o p : Option (LiveAdapter F W))
      → handle (if b then o else p) ≡ (if b then handle o else handle p)
  handle-if true o p = refl
  handle-if false o p = refl

  pub record IsValid (m : AdapterManager F W) : Type 0 where
    -- No forwarder runs on behind an adapter that is gone.
    pub no_leak : (h : ℕ) → m.running h ≡ true → (name : String) × (handle_of m.live name ≡ some h)
    -- The events of every live adapter are forwarded.
    pub served : (name : String) (h : ℕ) → handle_of m.live name ≡ some h → m.running h ≡ true
    -- No two adapters share a forwarder.
    pub distinct :
        (a b : String) (h : ℕ) → handle_of m.live a ≡ some h → handle_of m.live b ≡ some h → a ≡ b
    pub fresh : (name : String) (h : ℕ) → handle_of m.live name ≡ some h → h < m.next_handle

  pub handle_of-insert_live :
      (m : AdapterManager F W) (name : String) (a : BackendAdapter F W) (n : String)
      → handle_of (insert_live m name a).live n
        ≡ (if name == n then some m.next_handle else handle_of m.live n)
  unfolding insert_live handle_of
  handle_of-insert_live m name a n =
      ap handle (get-insert name n _ m.live) ∙ handle-if (name == n) _ _

  pub handle_of-remove :
      (live : HashMap String (LiveAdapter F W)) (name n : String)
      → handle_of (HashMap.remove name live) n ≡ (if name == n then none else handle_of live n)
  unfolding handle_of
  handle_of-remove live name n = ap handle (get-remove name n live) ∙ handle-if (name == n) _ _

  pub new-IsValid : (router : ApiRouter F W) → IsValid (new router)
  unfolding new handle_of HashMap.get
  new-IsValid router = record {
    no_leak = λ h r. cc;
    served = λ name h o. cc;
    distinct = λ a b h p q. cc;
    fresh = λ name h o. cc;
  }

  pub insert_live-IsValid :
      (m : AdapterManager F W) (name : String) (a : BackendAdapter F W)
      → IsValid m
      → handle_of m.live name ≡ none
      → IsValid (insert_live m name a)
  unfolding insert_live
  insert_live-IsValid m name a v absent = record {
    no_leak = λ h r. elim (Bool-cases (nat_eq h m.next_handle)) [
      | inl e ↦ (name, handle_of-insert_live m name a name ∙ ground (arith, ==_refl name))
      | inr e ↦
          let (n, o) = v.no_leak h (ground arith) in
          (n, handle_of-insert_live m name a n ∙ ground (arith, ==_iff name n))
    ];
    served = λ n h o. ground (arith, handle_of-insert_live m name a n, v.served n h);
    distinct = λ b c h p q. ground (
      arith,
      handle_of-insert_live m name a b,
      handle_of-insert_live m name a c,
      v.distinct b c h,
      v.fresh b h,
      v.fresh c h,
      ==_iff name b,
      ==_iff name c,
    );
    fresh = λ n h o. ground (arith, handle_of-insert_live m name a n, v.fresh n h);
  }

  insert_live-removed :
      (m : AdapterManager F W) (name : String) (a : BackendAdapter F W) (running : ℕ → Bool)
      → insert_live (record m { live = HashMap.remove name m.live; running = running }) name a
        ≡ insert_live (record m { running = running }) name a
  unfolding insert_live
  insert_live-removed m name a running =
      ap
        (λ l. record m {
          live = l;
          running = spawn m.next_handle running;
          next_handle = suc m.next_handle;
        })
        (insert-remove name (record { adapter = a; forward_handle = m.next_handle }) m.live)

  -- An entry taken out, with its forwarder aborted.
  remove-IsValid :
      (m : AdapterManager F W) (router : ApiRouter F W) (name : String) (k : ℕ)
      → IsValid m
      → handle_of m.live name ≡ some k
      → IsValid (record m {
        router = router;
        live = HashMap.remove name m.live;
        running = abort k m.running;
      })
  remove-IsValid m router name k v owned = record {
    no_leak = λ h r. elim (Bool-cases (nat_eq h k)) [
      | inl e ↦ cc (rw e at r)
      | inr e ↦
          let (n, o) = v.no_leak h (rw e at r) in
          (n, handle_of-remove m.live name n ∙ ground (arith, ==_iff name n))
    ];
    served = λ n h o.
        ground
          (arith, handle_of-remove m.live name n, v.served n h, v.distinct name n k, ==_iff name n);
    distinct = λ b c h p q.
        ground
          (arith, handle_of-remove m.live name b, handle_of-remove m.live name c, v.distinct b c h);
    fresh = λ n h o. ground (arith, handle_of-remove m.live name n, v.fresh n h);
  }

  handle_of-none :
      (m : AdapterManager F W) (name : String)
      → HashMap.contains_key m.live name ≡ false
      → handle_of m.live name ≡ none
  unfolding handle_of HashMap.contains_key
  handle_of-none m name h = elim (Option-cases (HashMap.get m.live name)) [
    | inl e ↦ rw e refl
    | inr (entry, e) ↦ cc (ap is_some e)
  ]

  add_connected-IsValid :
      (m : AdapterManager F W) (name : String) (a : BackendAdapter F W) (w : W)
      → IsValid m
      → handle_of m.live name ≡ none
      → IsValid (add_connected m name a w).0
  unfolding add_connected
  add_connected-IsValid m name a w v absent =
      insert_live-IsValid _ name a
        (record { no_leak = v.no_leak; served = v.served; distinct = v.distinct; fresh = v.fresh })
        absent

  add_adapter-IsValid :
      (lagrange : String → BackendConfig → BackendAdapter F W)
      (official : String → BackendConfig → Result (BackendAdapter F W)) (m : AdapterManager F W)
      (name : String) (config : BackendConfig) (w : W)
      → IsValid m
      → IsValid (add_adapter lagrange official m name config w).1
  unfolding add_adapter prepare
  add_adapter-IsValid lagrange official m name config w v =
      elim (Bool-cases (HashMap.contains_key m.live name)) [
        | inl e ↦ rw e v
        | inr e ↦ rw e (finish-IsValid (create lagrange official name config) e)
      ]
    where
      finish-IsValid :
          (r : Result (BackendAdapter F W))
          → HashMap.contains_key m.live name ≡ false
          → IsValid (finish lagrange official m name w r).1
      finish-IsValid (err e) h = v
      finish-IsValid (ok a) h = add_connected-IsValid m name a w v (handle_of-none m name h)

  remove_adapter-IsValid :
      (m : AdapterManager F W) (name : String) (w : W)
      → IsValid m
      → IsValid (remove_adapter m name w).1
  unfolding remove_adapter
  remove_adapter-IsValid m name w v = elim (Option-cases (HashMap.get m.live name)) [
    | inl e ↦ rw (e, remove_adapter) v
    | inr (entry, e) ↦
        rw (e, remove_adapter)
          (remove-IsValid m _ name entry.forward_handle v (unfold handle_of in rw e refl))
  ]

  reconnect_adapter-IsValid :
      (m : AdapterManager F W) (name : String) (w : W)
      → IsValid m
      → IsValid (reconnect_adapter m name w).1
  unfolding reconnect_adapter
  reconnect_adapter-IsValid m name w v = elim (Option-cases (HashMap.get m.live name)) [
    | inl e ↦ rw (e, reconnect_adapter) v
    | inr (entry, e) ↦ rw (e, reconnect_adapter) (reinserted entry e)
  ]
    where
      reinserted :
          (entry : LiveAdapter F W)
          → HashMap.get m.live name ≡ some entry
          → IsValid (
              insert_live
                (record m { running = abort entry.forward_handle m.running })
                name
                entry.adapter)
      reinserted entry e =
          let aborted = abort entry.forward_handle m.running in
          let removed = record m { live = HashMap.remove name m.live; running = aborted } in
          subst IsValid (insert_live-removed m name entry.adapter aborted) (
            insert_live-IsValid removed name entry.adapter
              (remove-IsValid m m.router name entry.forward_handle v
                (unfold handle_of in rw e refl))
              (handle_of-remove m.live name name ∙ rw (==_refl name) refl))

  -- What the management API may ask for, in any order and in any world.
  pub data Step (m : AdapterManager F W) : AdapterManager F W → Type 0 where
    add :
        (lagrange : String → BackendConfig → BackendAdapter F W)
        (official : String → BackendConfig → Result (BackendAdapter F W)) (name : String)
        (config : BackendConfig) (w : W)
        → Step m (add_adapter lagrange official m name config w).1
    remove : (name : String) (w : W) → Step m (remove_adapter m name w).1
    reconnect : (name : String) (w : W) → Step m (reconnect_adapter m name w).1

  pub data Reach (m : AdapterManager F W) : AdapterManager F W → Type 0 where
    here : Reach m m
    next : {n o : AdapterManager F W} → Reach m n → Step n o → Reach m o

  Step-IsValid : {m n : AdapterManager F W} → Step m n → IsValid m → IsValid n
  Step-IsValid {m} (add lagrange official name config w) v =
      add_adapter-IsValid lagrange official m name config w v
  Step-IsValid {m} (remove name w) v = remove_adapter-IsValid m name w v
  Step-IsValid {m} (reconnect name w) v = reconnect_adapter-IsValid m name w v

  Reach-keeps : {m n : AdapterManager F W} → Reach m n → IsValid m → IsValid n
  Reach-keeps here v = v
  Reach-keeps (next r s) v = Step-IsValid s (Reach-keeps r v)

  -- From a new manager, whatever is added, removed and reconnected, one call after the other: each
  -- live adapter has a running forwarder of its own, and no forwarder runs without its adapter.
  pub Reach-IsValid :
      (router : ApiRouter F W) (m : AdapterManager F W) → Reach (new router) m → IsValid m
  Reach-IsValid router m r = Reach-keeps r (new-IsValid router)
