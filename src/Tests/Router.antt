-- ===== src/Tests/Router.antt =====
-- crates/ferroq-gateway/src/router.rs at concrete inputs.
use ferroq.Prelude.{ℕ, ◌≡◌, refl, ◌-◌, length, true, false, some, [], ◌∷◌, is_empty, is_some, arith}
use ferroq.Prelude.Int.{ℤ, pos, eq_ℤ}
use ferroq.Prelude.HashMap
use ferroq.Core.Error.{err}
use ferroq.Core.Adapter.{BackendAdapter}
use ferroq.Router.{
  ApiRouter, new, register, associate_self_id, unregister, position_from, list_names, route_named,
  out_of_bounds,
}
use ferroq.Router.Unregister.{Reports, unregister-table}
use ferroq.Router.Stale.{route_named-associate_stale}
use ferroq.Tests.Data.{demo, bot, asking}

abbrev a : BackendAdapter demo ℕ
a = bot "a" (some (pos 10)) true

abbrev b : BackendAdapter demo ℕ
b = bot "b" (some (pos 20)) true

abbrev one : ApiRouter demo ℕ
one = register new a 0

abbrev two : ApiRouter demo ℕ
two = register (register new a 0) b 0

names : list_names (unregister two "a" 0).1 0 ≡ "b" ∷ []
unfolding list_names unregister register new
names = refl

not_empty : is_empty two.adapters ≡ false
unfolding register new
not_empty = refl

a_first : position_from "a" 0 0 two.adapters ≡ some 0
unfolding position_from register new
a_first = refl

unregister-table_example :
    ((s : ℤ) (i : ℕ)
      → HashMap.get (unregister two "a" 0).1.routing_table s ≡ some i
      → Reports 0 (unregister two "a" 0).1.adapters s i)
    × ((s : ℤ) (i : ℕ)
        → Reports 0 (unregister two "a" 0).1.adapters s i
        → is_some (HashMap.get (unregister two "a" 0).1.routing_table s) ≡ true)
unregister-table_example = unregister-table two "a" 0 0 a_first

route_named-associate_stale_example :
    route_named
      (associate_self_id (unregister two "a" 0).1 (pos 20) (length two.adapters - 1))
      (asking (some (pos 20)))
      1
    ≡ (err (out_of_bounds (length two.adapters - 1)), 1)
route_named-associate_stale_example =
    route_named-associate_stale two "a" 0 (pos 20) (asking (some (pos 20))) 0 1 a_first
      (unfold register new in omega arith) refl
