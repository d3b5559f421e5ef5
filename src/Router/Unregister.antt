-- ===== src/Router/Unregister.antt =====
-- crates/ferroq-gateway/src/router.rs, `unregister`: which adapters stay, and where the rebuilt
-- table points.
use ferroq.Prelude.{
  ℕ, zero, suc, ◌+◌, ◌-◌, ◌<◌, ◌≤◌, ◌≡◌, refl, ap, ◌∙◌, inl, inr, String, true, Option, none, some,
  List, [], ◌∷◌, map, length, get_elem?, is_some, arith, ◌==◌, ==_iff, ==_refl, eq_String,
  if◌then◌else◌, Bool-cases, Option-cases,
}
use ferroq.Prelude.Int.{ℤ, eq_ℤ}
use ferroq.Prelude.HashMap
use ferroq.Prelude.HashMap.{HashMap, get-insert}
use ferroq.Core.External.{External}
use ferroq.Core.Adapter.{BackendAdapter}
use ferroq.Router.{
  ApiRouter, unregister, list_names, rebuild, insert_known, position_from, remove_at,
}

-- The names without the first one that is `name`.
abbrev pub erase_first : String → List String → List String
erase_first name [] = []
erase_first name (n ∷ names) = if n == name then names else n ∷ erase_first name names

insert_known-keeps :
    (k : Option ℤ) (idx : ℕ) (table : HashMap ℤ ℕ) (s : ℤ)
    → is_some (HashMap.get table s) ≡ true
    → is_some (HashMap.get (insert_known k idx table) s) ≡ true
unfolding insert_known
insert_known-keeps none idx table s h = h
insert_known-keeps (some k) idx table s h = ground (arith, get-insert k s idx table)

insert_known_self :
    (s : ℤ) (idx : ℕ) (table : HashMap ℤ ℕ)
    → is_some (HashMap.get (insert_known (some s) idx table) s) ≡ true
unfolding insert_known
insert_known_self s idx table = ground (arith, get-insert s s idx table, ==_refl s)

some-path {ℓ} : {A : Type ℓ} (x y : A) → some x ≡ some y → x ≡ y
some-path x y e = cc

module _ {F : External} {W : Type 0} where
  pub position_from-ge :
      (name : String) (w : W) (i p : ℕ) (as' : List (BackendAdapter F W))
      → position_from name w i as' ≡ some p
      → (i ≤ p) × (p < i + length as')
  unfolding position_from
  position_from-ge name w i p [] h = cc
  position_from-ge name w i p (a ∷ as') h = ground (arith, position_from-ge name w (suc i) p as')

  names-remove_at :
      (name : String) (w : W) (i p : ℕ) (as' : List (BackendAdapter F W))
      → position_from name w i as' ≡ some p
      → map (λ a. (a.info w).name) (remove_at (p - i) as')
        ≡ erase_first name (map (λ a. (a.info w).name) as')
  unfolding position_from remove_at
  names-remove_at name w i p [] h = cc
  names-remove_at name w i p (a ∷ as') h = elim (Bool-cases ((a.info w).name == name)) [
    | inl e ↦
        let here : p ≡ i = ground arith in let first : p - i ≡ 0 = omega arith in rw (e, first) refl
    | inr e ↦
        let later : position_from name w (suc i) as' ≡ some p = ground arith in
        let bounds = position_from-ge name w (suc i) p as' later in
        let next : p - i ≡ suc (p - suc i) = omega arith in
        rw (e, next) (ap (◌∷◌ (a.info w).name) (names-remove_at name w (suc i) p as' later))
  ]

  names_absent :
      (name : String) (w : W) (i : ℕ) (as' : List (BackendAdapter F W))
      → position_from name w i as' ≡ none
      → map (λ a. (a.info w).name) as' ≡ erase_first name (map (λ a. (a.info w).name) as')
  unfolding position_from
  names_absent name w i [] h = refl
  names_absent name w i (a ∷ as') h = ground (arith, names_absent name w (suc i) as')

  -- `unregister` takes away the first adapter of that name, if there is one, and keeps the others
  -- in their order.
  pub list_names-unregister :
      (r : ApiRouter F W) (name : String) (w : W)
      → list_names (unregister r name w).1 w ≡ erase_first name (list_names r w)
  unfolding list_names unregister
  list_names-unregister r name w = elim (Option-cases (position_from name w 0 r.adapters)) [
    | inl e ↦ rw (e, unregister) (names_absent name w 0 r.adapters e)
    | inr (p, e) ↦
        let start : p ≡ p - 0 = omega arith in
        rw (e, unregister)
          (ap (λ q. map (λ a. (a.info w).name) (remove_at q r.adapters)) start
            ∙ names-remove_at name w 0 p r.adapters e)
  ]

  -- The adapter at index `i` reports the account `s`.
  abbrev pub Reports : W → List (BackendAdapter F W) → ℤ → ℕ → Type 0
  Reports w as' s i =
      (a : BackendAdapter F W) × (get_elem? as' i ≡ some a) × ((a.info w).self_id ≡ some s)

  abbrev Points : W → List (BackendAdapter F W) → HashMap ℤ ℕ → Type 0
  Points w all table = (s : ℤ) (i : ℕ) → HashMap.get table s ≡ some i → Reports w all s i

  insert_known-Points :
      (w : W) (all : List (BackendAdapter F W)) (table : HashMap ℤ ℕ) (a : BackendAdapter F W)
      (idx : ℕ) (known : Option ℤ)
      → (a.info w).self_id ≡ known
      → get_elem? all idx ≡ some a
      → Points w all table
      → Points w all (insert_known known idx table)
  unfolding insert_known
  insert_known-Points w all table a idx none e at_idx p = p
  insert_known-Points w all table a idx (some k) e at_idx p = λ s i h. elim (Bool-cases (k == s)) [
    | inl same ↦
        let here : idx ≡ i = ground (arith, get-insert k s idx table) in
        let same_id : k ≡ s = (==_iff k s).0 same in (a, rw (← here) at_idx, e ∙ ap some same_id)
    | inr other ↦ p s i (ground (arith, get-insert k s idx table))
  ]

  rebuild-Points :
      (w : W) (all as' : List (BackendAdapter F W)) (idx : ℕ) (table : HashMap ℤ ℕ)
      → ((j : ℕ) → get_elem? all (idx + j) ≡ get_elem? as' j)
      → Points w all table
      → Points w all (rebuild w idx as' table)
  unfolding rebuild
  rebuild-Points w all [] idx table tail p = p
  rebuild-Points w all (a ∷ as') idx table tail p =
      rebuild-Points w all as' (suc idx) _ (λ j. ap (get_elem? all) (omega arith) ∙ tail (suc j))
        (insert_known-Points w all table a idx (a.info w).self_id refl
          (ap (get_elem? all) (omega arith) ∙ tail 0) p)

  rebuild-keeps :
      (w : W) (idx : ℕ) (as' : List (BackendAdapter F W)) (table : HashMap ℤ ℕ) (s : ℤ)
      → is_some (HashMap.get table s) ≡ true
      → is_some (HashMap.get (rebuild w idx as' table) s) ≡ true
  unfolding rebuild
  rebuild-keeps w idx [] table s h = h
  rebuild-keeps w idx (a ∷ as') table s h =
      rebuild-keeps w (suc idx) as' _ s (insert_known-keeps (a.info w).self_id idx table s h)

  rebuild-covers :
      (w : W) (idx j : ℕ) (as' : List (BackendAdapter F W)) (table : HashMap ℤ ℕ) (s : ℤ)
      → Reports w as' s j
      → is_some (HashMap.get (rebuild w idx as' table) s) ≡ true
  unfolding rebuild
  rebuild-covers w idx j [] table s (a, e, known) = cc
  rebuild-covers w idx zero (b ∷ as') table s (a, e, known) =
      let same : (b.info w).self_id ≡ some s =
        ap (λ (x : BackendAdapter F W). (x.info w).self_id) (some-path b a e) ∙ known in
      rebuild-keeps w (suc idx) as' _ s (rw same (insert_known_self s idx table))
  rebuild-covers w idx (suc j) (b ∷ as') table s (a, e, known) =
      rebuild-covers w (suc idx) j as' _ s (a, e, known)

  -- After an adapter was taken away the table is exact: each entry leads to an adapter that
  -- reports the entry's account, and every account that an adapter reports has an entry.
  pub unregister-table :
      (r : ApiRouter F W) (name : String) (w : W) (p : ℕ)
      → position_from name w 0 r.adapters ≡ some p
      → ((s : ℤ) (i : ℕ)
          → HashMap.get (unregister r name w).1.routing_table s ≡ some i
          → Reports w (unregister r name w).1.adapters s i)
        × ((s : ℤ) (i : ℕ)
            → Reports w (unregister r name w).1.adapters s i
            → is_some (HashMap.get (unregister r name w).1.routing_table s) ≡ true)
  unfolding unregister
  unregister-table r name w p e =
      let as' = remove_at p r.adapters in
      rw (e, unregister)
        (
          rebuild-Points w as' as' 0 [] (λ j. ap (get_elem? as') (omega arith))
              (λ s i h. unfold HashMap.get in cc),
          λ s i h. rebuild-covers w 0 i as' [] s h,
        )
