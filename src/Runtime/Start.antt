-- ===== src/Runtime/Start.antt =====
-- crates/ferroq-gateway/src/runtime.rs: the state that `start` sets up.
use ferroq.Prelude.{
  ◌≡◌, ◌≢◌, refl, sym, ap, ◌∙◌, String, none, List, [], ◌∷◌, arith, ==_iff, eq_String, All,
}
use ferroq.Prelude.HashMap
use mathlib.Core.Path.{subst}
use ferroq.Core.External.{External}
use ferroq.Core.Adapter.{BackendAdapter}
use ferroq.Router
use ferroq.Router.{ApiRouter}
use ferroq.AdapterManager.{AdapterManager, new, insert_live, register_running}
use ferroq.AdapterManager.Valid.{
  IsValid, handle_of, handle_of-insert_live, insert_live-IsValid, new-IsValid,
}
use ferroq.Runtime.{start_adapters}

-- No two names are the same.
abbrev pub Apart : List String → Type 0
Apart [] = Unit
Apart (n ∷ names) = All (λ k. n ≢ k) names × Apart names

module _ {F : External} {W : Type 0} where
  -- The adapters have these names, in every world.
  abbrev pub Named : List String → List (BackendAdapter F W) → Type 0
  Named [] [] = Unit
  Named (n ∷ names) (a ∷ adapters) = ((w : W) → (a.info w).name ≡ n) × Named names adapters
  Named [] (a ∷ adapters) = ⊥
  Named (n ∷ names) [] = ⊥

  abbrev Free : AdapterManager F W → List String → Type 0
  Free m = All (λ n. handle_of m.live n ≡ none)

  insert_live-Free :
      (m : AdapterManager F W) (a : BackendAdapter F W) (name : String) (names : List String)
      → All (λ k. name ≢ k) names
      → Free m names
      → Free (insert_live m name a) names
  insert_live-Free m a name [] others free = tt
  insert_live-Free m a name (k ∷ names) others free = (
    handle_of-insert_live m name a k ∙ ground (arith, ==_iff name k),
    insert_live-Free m a name names others.1 free.1,
  )

  register_running-insert :
      (m : AdapterManager F W) (a : BackendAdapter F W) (w : W) (n : String)
      → (a.info w).name ≡ n
      → insert_live m n a ≡ register_running m a w
  unfolding register_running
  register_running-insert m a w n e = ap (λ k. insert_live m k a) (sym e)

  start_adapters-IsValid :
      (m : AdapterManager F W) (names : List String) (adapters : List (BackendAdapter F W)) (w : W)
      → IsValid m
      → Named names adapters
      → Apart names
      → Free m names
      → IsValid (start_adapters m adapters w).0
  unfolding start_adapters
  start_adapters-IsValid m [] [] w v named apart free = v
  start_adapters-IsValid m (n ∷ names) [] w v named apart free = absurd named
  start_adapters-IsValid m [] (a ∷ adapters) w v named apart free = absurd named
  start_adapters-IsValid m (n ∷ names) (a ∷ adapters) w v named apart free =
      let w' : W = (a.connect w).1 in
      let routed : AdapterManager F W = record m { router = Router.register m.router a w' } in
      let v' : IsValid routed = record {
        no_leak = v.no_leak;
        served = v.served;
        distinct = v.distinct;
        fresh = v.fresh;
      } in
      let same = register_running-insert routed a w' n (named.0 w') in
      start_adapters-IsValid (register_running routed a w') names adapters w'
        (subst IsValid same (insert_live-IsValid routed n a v' free.0)) named.1 apart.1
        (subst (λ x. Free x names) same (insert_live-Free routed a n names apart.0 free.1))

  new-Free : (router : ApiRouter F W) (names : List String) → Free (new router) names
  unfolding new handle_of HashMap.get
  new-Free router [] = tt
  new-Free router (n ∷ names) = (refl, new-Free router names)

  -- Adapters of different names, none of which changes, are started into a manager in which each
  -- live adapter has a running forwarder of its own, and no forwarder runs without its adapter,
  -- whether or not their connections are successful.
  start_adapters-new :
      (router : ApiRouter F W) (names : List String) (adapters : List (BackendAdapter F W)) (w : W)
      → Named names adapters
      → Apart names
      → IsValid (start_adapters (new router) adapters w).0
  start_adapters-new router names adapters w named apart =
      start_adapters-IsValid (new router) names adapters w (new-IsValid router) named apart
        (new-Free router names)
