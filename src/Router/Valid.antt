-- ===== src/Router/Valid.antt =====
-- crates/ferroq-gateway/src/router.rs: every index that the router keeps is the index of an
-- adapter, so a request always finds one.
use ferroq.Prelude.{
  ℕ, zero, suc, ◌+◌, ◌<◌, ◌≤◌, ◌≡◌, refl, ap, ◌∙◌, inl, inr, String, false, Option, none, some,
  List, [], ◌∷◌, ◌++◌, length, get_elem?, is_empty, arith, ==_refl, eq_String, if◌then◌else◌,
  Option-cases, length-append, get_elem?-some, get_elem?-append_last,
}
use ferroq.Prelude.Int.{ℤ, eq_ℤ}
use ferroq.Prelude.HashMap
use ferroq.Prelude.HashMap.{HashMap, get-insert}
use ferroq.Core.External.{External}
use ferroq.Core.Api.{ApiRequest}
use ferroq.Core.Adapter.{BackendAdapter}
use ferroq.Router.{
  ApiRouter, new, register, associate_self_id, unregister, target, route_named, call_named, rebuild,
  insert_known, position_from, remove_at, unwrap_or,
}

-- Every entry of the table is below `n`.
abbrev pub Below : ℕ → HashMap ℤ ℕ → Type 0
Below n table = (s : ℤ) (i : ℕ) → HashMap.get table s ≡ some i → i < n

module _ {F : External} {W : Type 0} where
  pub record IsValid (r : ApiRouter F W) : Type 0 where
    pub table_in_range : Below (length r.adapters) r.routing_table
    pub default_in_range : (i : ℕ) → r.default_index ≡ some i → i < length r.adapters

  pub new-IsValid : IsValid new
  unfolding new HashMap.get
  new-IsValid = record { table_in_range = λ s i h. cc; default_in_range = λ i h. cc }

insert-Below :
    (n i : ℕ) (k : ℤ) (table : HashMap ℤ ℕ)
    → Below n table
    → i < n
    → Below n (HashMap.insert k i table)
insert-Below n i k table b lt j m h = grind (arith, get-insert k j i table, b j m)

insert_known-Below :
    (n i : ℕ) (k : Option ℤ) (table : HashMap ℤ ℕ)
    → Below n table
    → i < n
    → Below n (insert_known k i table)
unfolding insert_known
insert_known-Below n i none table b lt = b
insert_known-Below n i (some k) table b lt = insert-Below n i k table b lt

weaken-Below : (n m : ℕ) (table : HashMap ℤ ℕ) → Below n table → n ≤ m → Below m table
weaken-Below n m table b le s i h = omega (arith, b s i h)

first_index {ℓ} :
    {A : Type ℓ} (xs : List A) (i : ℕ)
    → (if is_empty xs then none else some 0) ≡ some i
    → i < length xs
first_index [] i h = cc
first_index (x ∷ xs) i h = ground arith

pub length_pos {ℓ} : {A : Type ℓ} (xs : List A) → is_empty xs ≡ false → 0 < length xs
length_pos [] h = cc
length_pos (x ∷ xs) h = omega arith

append-not-empty {ℓ} : {A : Type ℓ} (xs : List A) (x : A) → is_empty (xs ++ x ∷ []) ≡ false
append-not-empty [] x = refl
append-not-empty (y ∷ xs) x = refl

pub length-remove_at {ℓ} :
    {A : Type ℓ} (i : ℕ) (xs : List A) → i < length xs → length (remove_at i xs) + 1 ≡ length xs
unfolding remove_at
length-remove_at i [] h = absurd (omega arith)
length-remove_at zero (x ∷ xs) h = omega arith
length-remove_at (suc i) (x ∷ xs) h = omega (arith, length-remove_at i xs (omega arith))

module _ {F : External} {W : Type 0} where
  rebuild-Below :
      (w : W) (idx : ℕ) (adapters : List (BackendAdapter F W)) (table : HashMap ℤ ℕ)
      → Below idx table
      → Below (idx + length adapters) (rebuild w idx adapters table)
  unfolding rebuild
  rebuild-Below w idx [] table b = weaken-Below idx _ table b (omega arith)
  rebuild-Below w idx (a ∷ adapters) table b =
      weaken-Below (suc idx + length adapters) _ _
        (rebuild-Below w (suc idx) adapters _ (
          insert_known-Below (suc idx) idx (a.info w).self_id table
            (weaken-Below idx (suc idx) table b (omega arith)) (omega arith)))
        (omega arith)

  pub register-IsValid :
      (r : ApiRouter F W) (a : BackendAdapter F W) (w : W) → IsValid r → IsValid (register r a w)
  unfolding register
  register-IsValid r a w v =
      let grown : length (r.adapters ++ a ∷ []) ≡ length r.adapters + 1 =
        length-append r.adapters (a ∷ []) ∙ omega arith in
      record {
        table_in_range =
            insert_known-Below _ _ (a.info w).self_id r.routing_table
              (weaken-Below (length r.adapters) _ r.routing_table v.table_in_range (omega arith))
              (omega arith);
        default_in_range = λ i h. elim (Option-cases r.default_index) [
          | inl e ↦ ground arith
          | inr (d, e) ↦ ground (arith, v.default_in_range d)
        ];
      }

  pub associate_self_id-IsValid :
      (r : ApiRouter F W) (s : ℤ) (i : ℕ)
      → IsValid r
      → i < length r.adapters
      → IsValid (associate_self_id r s i)
  unfolding associate_self_id
  associate_self_id-IsValid r s i v lt = record {
    table_in_range = insert-Below _ i s r.routing_table v.table_in_range lt;
    default_in_range = v.default_in_range;
  }

  pub unregister-IsValid :
      (r : ApiRouter F W) (name : String) (w : W) → IsValid r → IsValid (unregister r name w).1
  unfolding unregister
  unregister-IsValid r name w v = elim (Option-cases (position_from name w 0 r.adapters)) [
    | inl e ↦ rw (e, unregister) v
    | inr (pos, e) ↦
        rw (e, unregister)
          (record {
            table_in_range =
                weaken-Below _ _ _
                  (rebuild-Below w 0 (remove_at pos r.adapters) []
                    (λ s i h. unfold HashMap.get in cc))
                  (omega arith);
            default_in_range = first_index (remove_at pos r.adapters);
          })
  ]

  default-lt :
      (r : ApiRouter F W)
      → IsValid r
      → is_empty r.adapters ≡ false
      → unwrap_or r.default_index 0 < length r.adapters
  default-lt r v h = elim (Option-cases r.default_index) [
    | inl e ↦ rw e (length_pos r.adapters h)
    | inr (d, e) ↦ rw e (v.default_in_range d e)
  ]

  target-lt :
      (r : ApiRouter F W) (s : Option ℤ)
      → IsValid r
      → is_empty r.adapters ≡ false
      → target r s < length r.adapters
  unfolding target
  target-lt r none v h = default-lt r v h
  target-lt r (some self_id) v h = elim (Option-cases (HashMap.get r.routing_table self_id)) [
    | inl e ↦ rw e (default-lt r v h)
    | inr (i, e) ↦ rw e (v.table_in_range self_id i e)
  ]

  pub route_named_at :
      (r : ApiRouter F W) (request : ApiRequest F) (w : W) (a : BackendAdapter F W)
      → is_empty r.adapters ≡ false
      → get_elem? r.adapters (target r request.self_id) ≡ some a
      → route_named r request w ≡ call_named a request w
  unfolding route_named
  route_named_at r request w a h found = rw (h, found) refl

  target-register :
      (r : ApiRouter F W) (a : BackendAdapter F W) (w : W) (s : ℤ)
      → (a.info w).self_id ≡ some s
      → target (register r a w) (some s) ≡ length r.adapters
  unfolding target register insert_known
  target-register r a w s known =
      rw known (rw (get-insert s s (length r.adapters) r.routing_table, ==_refl s) refl)

  -- A valid router that has an adapter sends every request to one of its adapters, the one at the
  -- index of the request's account or else the default's: the error "out of bounds" never comes.
  pub route_named-IsValid :
      (r : ApiRouter F W) (request : ApiRequest F) (w : W)
      → IsValid r
      → is_empty r.adapters ≡ false
      → (a : BackendAdapter F W) × (get_elem? r.adapters (target r request.self_id) ≡ some a)
        × (route_named r request w ≡ call_named a request w)
  route_named-IsValid r request w v h =
      let (a, found) =
        get_elem?-some r.adapters (target r request.self_id) (target-lt r request.self_id v h) in
      (a, found, route_named_at r request w a h found)

  -- A request for the account that an adapter reports goes to that adapter once it is registered,
  -- whatever the router held before.
  route_named-register :
      (r : ApiRouter F W) (a : BackendAdapter F W) (request : ApiRequest F) (w w' : W) (s : ℤ)
      → (a.info w).self_id ≡ some s
      → request.self_id ≡ some s
      → route_named (register r a w) request w' ≡ call_named a request w'
  unfolding register
  route_named-register r a request w w' s known asked =
      let at_end = ap (target (register r a w)) asked ∙ target-register r a w s known in
      route_named_at (register r a w) request w' a (append-not-empty r.adapters a)
        (ap (get_elem? (r.adapters ++ a ∷ [])) at_end ∙ get_elem?-append_last r.adapters a)
