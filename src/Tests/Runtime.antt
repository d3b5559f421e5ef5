-- ===== src/Tests/Runtime.antt =====
-- crates/ferroq-gateway/src/runtime.rs at concrete inputs.
use ferroq.Prelude.{ℕ, ◌≡◌, refl, eq_String, length, true, false, none, some, List, [], ◌∷◌, map}
use ferroq.Prelude.HashMap
use ferroq.Prelude.Int.{pos, eq_ℤ}
use ferroq.Core.Adapter.{BackendAdapter}
use ferroq.Router
use ferroq.Router.Valid
use ferroq.Stats
use ferroq.AdapterManager
use ferroq.AdapterManager.{AdapterManager}
use ferroq.Runtime.{refresh, initial_snapshots}
use ferroq.Runtime.Refresh.{Snapshots, refresh-IsValid}
use ferroq.Tests.Data.{demo, bot}

abbrev bots : List (BackendAdapter demo ℕ)
bots = bot "a" (some (pos 10)) true ∷ bot "b" none false ∷ []

shown : map (λ s. s.healthy) (initial_snapshots bots 0) ≡ true ∷ false ∷ []
unfolding initial_snapshots
shown = refl

abbrev one : AdapterManager demo ℕ
one =
    AdapterManager.register_running
      (AdapterManager.new (Router.register Router.new (bot "a" (some (pos 10)) true) 0))
      (bot "a" (some (pos 10)) true) 0

there : length (AdapterManager.adapters one) ≡ 1
unfolding AdapterManager.register_running AdapterManager.insert_live AdapterManager.adapters
    AdapterManager.new HashMap.insert HashMap.remove
there = refl

abbrev clock : ℕ → ℕ
clock w = w

refresh-IsValid_example :
    Valid.IsValid (refresh clock clock one Stats.new 5).0.router
    × Snapshots clock clock
        (refresh clock clock one Stats.new 5).1.adapters
        (AdapterManager.adapters one)
        5
refresh-IsValid_example = refresh-IsValid clock clock one Stats.new 5 (
    unfold AdapterManager.new AdapterManager.register_running AdapterManager.insert_live in
    Valid.register-IsValid Router.new (bot "a" (some (pos 10)) true) 0 Valid.new-IsValid)
