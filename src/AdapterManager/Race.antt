-- ===== src/AdapterManager/Race.antt =====
-- crates/ferroq-gateway/src/adapter_manager.rs, `add_adapter`: the check for the name comes before
-- the connection is awaited, and nothing is checked afterwards. Two calls for one name may both
-- pass the check before either of them goes on.
use ferroq.Prelude.{suc, ◌≡◌, ◌≢◌, refl, String, true, some, arith, eq_String}
use ferroq.Core.External.{External}
use ferroq.Core.Config.{BackendConfig}
use ferroq.Core.Error.{Result, ok}
use ferroq.Core.Adapter.{BackendAdapter}
use ferroq.Router
use ferroq.AdapterManager.{AdapterManager, insert_live, add_connected, prepare}
use ferroq.AdapterManager.Valid.{IsValid, handle_of, handle_of-insert_live}

insert_live_next :
    {F : External} {W : Type 0} (m : AdapterManager F W) (name : String) (a : BackendAdapter F W)
    → (insert_live m name a).next_handle ≡ suc m.next_handle
unfolding insert_live
insert_live_next m name a = refl

module _ {F : External} {W : Type 0} (lagrange : String → BackendConfig → BackendAdapter F W)
    (official : String → BackendConfig → Result (BackendAdapter F W)) where
  -- Two additions under one name that have both passed the check on a valid manager, and are then
  -- finished one after the other, leave a forwarder that runs and whose handle no entry of the
  -- live adapters holds.
  pub add_connected_twice :
      (m : AdapterManager F W) (name : String) (c d : BackendConfig) (a b : BackendAdapter F W)
      (w w' : W)
      → IsValid m
      → prepare lagrange official m name c ≡ ok a
      → prepare lagrange official m name d ≡ ok b
      → ((add_connected (add_connected m name a w).0 name b w').0.running m.next_handle ≡ true)
        × ((n : String)
            → handle_of (add_connected (add_connected m name a w).0 name b w').0.live n
              ≢ some m.next_handle)
  unfolding add_connected
  add_connected_twice m name c d a b w w' v p q = (
    unfold insert_live in ground arith,
    λ n owned. ground (
      arith,
      handle_of-insert_live (record m { router = Router.register m.router a (a.connect w).1 }) name
          a n,
      handle_of-insert_live
          (record (add_connected m name a w).0 {
            router = Router.register (add_connected m name a w).0.router b (b.connect w').1;
          })
          name b n,
      v.fresh n m.next_handle,
      insert_live_next (record m { router = Router.register m.router a (a.connect w).1 }) name a,
    ),
  )
