-- ===== src/Router/Stale.antt =====
-- crates/ferroq-gateway/src/runtime.rs, the stats refresher of `start`: it lists the router's names
-- once, then awaits a health check of each adapter, and then associates accounts with the positions
-- in that list. `unregister` may come in between.
use ferroq.Prelude.{
  ℕ, ◌-◌, ◌<◌, ◌≤◌, ◌≡◌, refl, ap, ◌∙◌, String, false, none, some, List, [], ◌∷◌, length, get_elem?,
  is_empty, arith, ==_refl, get_elem?-none,
}
use ferroq.Prelude.Int.{ℤ, eq_ℤ}
use ferroq.Prelude.HashMap.{get-insert}
use ferroq.Core.External.{External}
use ferroq.Core.Error.{Result, err}
use ferroq.Core.Api.{ApiRequest, ApiResponse}
use ferroq.Router.{
  ApiRouter, associate_self_id, unregister, route_named, target, position_from, out_of_bounds,
}
use ferroq.Router.Valid.{length-remove_at}
use ferroq.Router.Unregister.{position_from-ge}

not-empty {ℓ} : {A : Type ℓ} (xs : List A) → 0 < length xs → is_empty xs ≡ false
not-empty [] h = absurd (omega arith)
not-empty (x ∷ xs) h = refl

module _ {F : External} {W : Type 0} where
  target-associate :
      (r : ApiRouter F W) (s : ℤ) (i : ℕ) → target (associate_self_id r s i) (some s) ≡ i
  unfolding target associate_self_id
  target-associate r s i = rw (get-insert s s i r.routing_table, ==_refl s) refl

  route_named-none :
      (r : ApiRouter F W) (i : ℕ) (request : ApiRequest F) (w : W)
      → is_empty r.adapters ≡ false
      → target r request.self_id ≡ i
      → get_elem? r.adapters i ≡ none
      → route_named r request w ≡ (err (out_of_bounds i), w)
  unfolding route_named
  route_named-none r i request w some_left at_i missing =
      rw (some_left, ap (get_elem? r.adapters) at_i ∙ missing)
        (ap
          (λ (j : ℕ).
            let reply : Result (ApiResponse F × String) × W = (err (out_of_bounds j), w) in reply)
          at_i)

  route_named_beyond :
      (r : ApiRouter F W) (s : ℤ) (i : ℕ) (request : ApiRequest F) (w : W)
      → 0 < length r.adapters
      → length r.adapters ≤ i
      → request.self_id ≡ some s
      → route_named (associate_self_id r s i) request w ≡ (err (out_of_bounds i), w)
  unfolding associate_self_id
  route_named_beyond r s i request w some_left beyond asked =
      route_named-none (associate_self_id r s i) i request w (not-empty r.adapters some_left)
        (ap (target (associate_self_id r s i)) asked ∙ target-associate r s i)
        (get_elem?-none r.adapters i beyond)

  -- Let the refresher have read the position of the last of two or more adapters, and let another
  -- adapter be unregistered before it writes: from then on every request for that account fails
  -- with "out of bounds", though the router is not empty and all its adapters may be well.
  pub route_named-associate_stale :
      (r : ApiRouter F W) (other : String) (p : ℕ) (s : ℤ) (request : ApiRequest F) (w w' : W)
      → position_from other w 0 r.adapters ≡ some p
      → 2 ≤ length r.adapters
      → request.self_id ≡ some s
      → route_named
          (associate_self_id (unregister r other w).1 s (length r.adapters - 1))
          request
          w'
        ≡ (err (out_of_bounds (length r.adapters - 1)), w')
  unfolding unregister
  route_named-associate_stale r other p s request w w' found two asked =
      let bounds = position_from-ge other w 0 p r.adapters found in
      let shorter = length-remove_at p r.adapters (omega arith) in
      rw (found, unregister)
        (route_named_beyond _ s (length r.adapters - 1) request w' (omega arith) (omega arith)
          asked)
