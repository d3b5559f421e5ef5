-- ===== src/Prelude/HashMap.antt =====
-- `std::collections::HashMap` as an association list with at most one entry to a key. The order
-- of iteration, which the standard library leaves open, is the order of the list.
use mathlib.Core.Path.{◌≡◌, refl, ◌∙◌, ap}
use mathlib.Core.Logic.{◌≢◌}
use mathlib.Core.Bool.{Bool, false}
use mathlib.Core.Option.{Option, none, some}
use mathlib.Core.List.{List, [], ◌∷◌}
use native.Mathlib.Omega.{arith}
use ferroq.Prelude.Tests.{◌==◌, ==_iff, ==_refl, if◌then◌else◌, Eq, is_some}
use ferroq.Prelude.Lists.{keep}

-- `Option::filter`
abbrev pub only_if {ℓ} : {A : Type ℓ} → (A → Bool) → Option A → Option A
only_if p none = none
only_if p (some a) = if p a then some a else none

abbrev pub HashMap {ℓ} : Type ℓ → Type ℓ → Type ℓ
HashMap K V = List (K × V)

pub ne_test {ℓ} : {A : Type ℓ} ⦃e : Eq A⦄ (a b : A) → a ≢ b → (a == b) ≡ false
ne_test a b h = ground (arith, ==_iff a b)

module _ {ℓ} {K V : Type ℓ} ⦃e : Eq K⦄ where
  unfoldable pub get : HashMap K V → K → Option V
  get [] k = none
  get ((j, v) ∷ m) k = if j == k then some v else get m k

  unfoldable pub remove : K → HashMap K V → HashMap K V
  remove k [] = []
  remove k ((j, v) ∷ m) = if j == k then remove k m else (j, v) ∷ remove k m

  unfoldable pub insert : K → V → HashMap K V → HashMap K V
  unfolding remove
  insert k v m = (k, v) ∷ remove k m

  unfoldable pub contains_key : HashMap K V → K → Bool
  unfolding get
  contains_key m k = is_some (get m k)

  -- `retain(|_, v| p(v))`
  unfoldable pub retain : (V → Bool) → HashMap K V → HashMap K V
  retain p = keep (λ e. p e.1)

  pub get-remove :
      (k j : K) (m : HashMap K V) → get (remove k m) j ≡ (if k == j then none else get m j)
  unfolding get remove
  get-remove k j [] = ground arith
  get-remove k j ((i, v) ∷ m) = ground (arith, ==_iff i k, ==_iff i j, ==_iff k j, get-remove k j m)

  pub remove-remove : (k : K) (m : HashMap K V) → remove k (remove k m) ≡ remove k m
  unfolding remove
  remove-remove k [] = refl
  remove-remove k ((j, v) ∷ m) = ground (arith, remove-remove k m)

  pub insert-remove : (k : K) (v : V) (m : HashMap K V) → insert k v (remove k m) ≡ insert k v m
  unfolding insert
  insert-remove k v m = ap (◌∷◌ (k, v)) (remove-remove k m)

  pub get-insert :
      (k j : K) (v : V) (m : HashMap K V)
      → get (insert k v m) j ≡ (if k == j then some v else get m j)
  unfolding get insert
  get-insert k j v m = ground (arith, get-remove k j m)

  pub get-insert_self : (k : K) (v : V) (m : HashMap K V) → get (insert k v m) k ≡ some v
  get-insert_self k v m = get-insert k k v m ∙ rw (==_refl k) refl

  pub get-remove_self : (k : K) (m : HashMap K V) → get (remove k m) k ≡ none
  get-remove_self k m = get-remove k k m ∙ rw (==_refl k) refl

  pub get-insert_ne : (k j : K) (v : V) (m : HashMap K V) → k ≢ j → get (insert k v m) j ≡ get m j
  get-insert_ne k j v m h = get-insert k j v m ∙ rw (ne_test k j h) refl

  pub get-remove_ne : (k j : K) (m : HashMap K V) → k ≢ j → get (remove k m) j ≡ get m j
  get-remove_ne k j m h = get-remove k j m ∙ rw (ne_test k j h) refl

  -- No key stands twice.
  abbrev pub Unique : HashMap K V → Type ℓ
  Unique [] = Unit
  Unique ((k, v) ∷ m) = (get m k ≡ none) × Unique m

  pub remove-Unique : (k : K) (m : HashMap K V) → Unique m → Unique (remove k m)
  unfolding remove
  remove-Unique k [] u = u
  remove-Unique k ((j, v) ∷ m) u = ground (arith, remove-Unique k m, get-remove k j m)

  pub insert-Unique : (k : K) (v : V) (m : HashMap K V) → Unique m → Unique (insert k v m)
  unfolding insert
  insert-Unique k v m u = (get-remove k k m ∙ (rw (==_refl k)), remove-Unique k m u)

  get-retain-none :
      (p : V → Bool) (k : K) (m : HashMap K V) → get m k ≡ none → get (retain p m) k ≡ none
  unfolding get retain
  get-retain-none p k [] h = refl
  get-retain-none p k ((j, v) ∷ m) h = ground (arith, get-retain-none p k m)

  pub get-retain :
      (p : V → Bool) (k : K) (m : HashMap K V) → Unique m → get (retain p m) k ≡ only_if p (get m k)
  unfolding get retain
  get-retain p k [] u = refl
  get-retain p k ((j, v) ∷ m) u =
      ground (arith, ==_iff j k, get-retain p k m, get-retain-none p j m)

  pub retain-Unique : (p : V → Bool) (m : HashMap K V) → Unique m → Unique (retain p m)
  unfolding retain
  retain-Unique p [] u = u
  retain-Unique p ((k, v) ∷ m) u = ground (arith, retain-Unique p m, get-retain-none p k m)
