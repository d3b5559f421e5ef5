-- ===== src/Server/Connection/Ledger.antt =====
-- crates/ferroq-gateway/src/server/onebot_v11.rs: where each request of a connection stands, a request
-- being known by its number.
use mathlib.Core.Path.{subst}
use ferroq.Prelude.{
  sym, ℕ, zero, suc, ◌+◌, ◌≡◌, refl, ap, Bool, some, List, [], ◌∷◌, ◌++◌, length, get_elem?, nat_eq,
  ltb, if◌then◌else◌, arith, All,
}
use ferroq.Core.External.{External}
use ferroq.Core.Api.{ApiRequest}
use ferroq.Server.Connection.{
  Outgoing, event_text, response_text, Phase, routing, replying, Connection, remove_at, set_at,
}

abbrev pub one_if : Bool → ℕ
one_if b = if b then 1 else 0

some_inj {ℓ} : {A : Type ℓ} {x y : A} → some x ≡ some y → x ≡ y
some_inj h = cc

module _ {F : External} where
  abbrev pub count_tasks : ℕ → List (ℕ × Phase F) → ℕ
  count_tasks id [] = 0
  count_tasks id ((n, p) ∷ tasks) = one_if (nat_eq n id) + count_tasks id tasks

  abbrev pub count_out : ℕ → List (Outgoing F) → ℕ
  count_out id [] = 0
  count_out id (event_text event ∷ texts) = count_out id texts
  count_out id (response_text n response ∷ texts) = one_if (nat_eq n id) + count_out id texts

  -- Every request below `received` is in one place, and no other.
  abbrev pub Once : Connection F → Type 0
  Once c =
      (id : ℕ)
      → count_tasks id c.tasks + (count_out id c.queue + count_out id c.sent)
        ≡ one_if (ltb id c.received)

  -- A task is for its request, and a response has its echo.
  abbrev pub TaskOf : (ℕ → ApiRequest F) → ℕ × Phase F → Type 0
  TaskOf asked (id, routing request) = request ≡ asked id
  TaskOf asked (id, replying response) = response.echo ≡ (asked id).echo

  abbrev pub TextOf : (ℕ → ApiRequest F) → Outgoing F → Type 0
  TextOf asked (event_text event) = Unit
  TextOf asked (response_text id response) = response.echo ≡ (asked id).echo

  pub count_tasks-append :
      (id : ℕ) (xs ys : List (ℕ × Phase F))
      → count_tasks id (xs ++ ys) ≡ count_tasks id xs + count_tasks id ys
  count_tasks-append id [] ys = omega arith
  count_tasks-append id ((n, p) ∷ xs) ys = omega (arith, count_tasks-append id xs ys)

  pub count_out-append :
      (id : ℕ) (xs ys : List (Outgoing F))
      → count_out id (xs ++ ys) ≡ count_out id xs + count_out id ys
  count_out-append id [] ys = omega arith
  count_out-append id (event_text event ∷ xs) ys = count_out-append id xs ys
  count_out-append id (response_text n response ∷ xs) ys = omega (arith, count_out-append id xs ys)

  -- The list at a place that is there.
  pub count_tasks-remove_at :
      (id i n : ℕ) (p : Phase F) (xs : List (ℕ × Phase F))
      → get_elem? xs i ≡ some (n, p)
      → one_if (nat_eq n id) + count_tasks id (remove_at xs i) ≡ count_tasks id xs
  count_tasks-remove_at id i n p [] h = cc
  count_tasks-remove_at id zero n p ((m, q) ∷ xs) h =
      ap (λ k. one_if (nat_eq k id) + count_tasks id xs) (sym (ap (λ t. t.0) (some_inj h)))
  count_tasks-remove_at id (suc i) n p ((m, q) ∷ xs) h =
      omega (arith, count_tasks-remove_at id i n p xs h)

  pub length-remove_at :
      (i : ℕ) (t : ℕ × Phase F) (xs : List (ℕ × Phase F))
      → get_elem? xs i ≡ some t
      → suc (length (remove_at xs i)) ≡ length xs
  length-remove_at i t [] h = cc
  length-remove_at zero t (x ∷ xs) h = refl
  length-remove_at (suc i) t (x ∷ xs) h = ap suc (length-remove_at i t xs h)

  pub count_tasks-set_at :
      (id i n : ℕ) (p q : Phase F) (xs : List (ℕ × Phase F))
      → get_elem? xs i ≡ some (n, p)
      → count_tasks id (set_at xs i (n, q)) ≡ count_tasks id xs
  count_tasks-set_at id i n p q [] h = cc
  count_tasks-set_at id zero n p q ((m, r) ∷ xs) h =
      ap (λ k. one_if (nat_eq k id) + count_tasks id xs) (sym (ap (λ t. t.0) (some_inj h)))
  count_tasks-set_at id (suc i) n p q ((m, r) ∷ xs) h =
      omega (arith, count_tasks-set_at id i n p q xs h)

  pub length-set_at :
      (i : ℕ) (t : ℕ × Phase F) (xs : List (ℕ × Phase F)) → length (set_at xs i t) ≡ length xs
  length-set_at i t [] = refl
  length-set_at zero t (x ∷ xs) = refl
  length-set_at (suc i) t (x ∷ xs) = ap suc (length-set_at i t xs)

pub All-get_elem? {ℓ κ} :
    {A : Type ℓ} (P : A → Type κ) (xs : List A) (i : ℕ) (x : A)
    → All P xs
    → get_elem? xs i ≡ some x
    → P x
All-get_elem? P [] i x all h = cc
All-get_elem? P (y ∷ xs) zero x (p, all) h = subst P (some_inj h) p
All-get_elem? P (y ∷ xs) (suc i) x (p, all) h = All-get_elem? P xs i x all h

pub All-remove_at {ℓ κ} :
    {A : Type ℓ} (P : A → Type κ) (xs : List A) (i : ℕ) → All P xs → All P (remove_at xs i)
All-remove_at P [] i all = tt
All-remove_at P (y ∷ xs) zero (p, all) = all
All-remove_at P (y ∷ xs) (suc i) (p, all) = (p, All-remove_at P xs i all)

pub All-set_at {ℓ κ} :
    {A : Type ℓ} (P : A → Type κ) (xs : List A) (i : ℕ) (x : A)
    → All P xs
    → P x
    → All P (set_at xs i x)
All-set_at P [] i x all q = tt
All-set_at P (y ∷ xs) zero x (p, all) q = (q, all)
All-set_at P (y ∷ xs) (suc i) x (p, all) q = (p, All-set_at P xs i x all q)
