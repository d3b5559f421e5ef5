-- ===== src/Router.antt =====
-- crates/ferroq-gateway/src/router.rs: `ApiRouter`. Each method holds the locks that it needs from
-- its first read to its last write, so it is one step; `route_named` gives them back before it
-- calls the adapter.
pub mod Valid
pub mod Unregister
pub mod Stale
use Prim.Native.String.{◌++◌ as append}
use ferroq.Prelude.{
  ℕ, zero, suc, String, Bool, true, false, Option, none, some, List, [], ◌∷◌, ◌++◌, map, length,
  get_elem?, is_empty, is_some, ◌==◌, eq_String, if◌then◌else◌,
}
use ferroq.Prelude.Int.{ℤ, eq_ℤ}
use ferroq.Prelude.HashMap
use ferroq.Prelude.HashMap.{HashMap}
use ferroq.Prelude.Decimal.{to_string}
use ferroq.Core.External.{External}
use ferroq.Core.Error.{GatewayError, internal, Result, ok, err}
use ferroq.Core.Api.{ApiRequest, ApiResponse}
use ferroq.Core.Adapter.{AdapterInfo, BackendAdapter}

pub record ApiRouter (F : External) (W : Type 0) : Type 0 where
  pub routing_table : HashMap ℤ ℕ
  pub adapters : List (BackendAdapter F W)
  pub default_index : Option ℕ

abbrev pub unwrap_or {ℓ} : {A : Type ℓ} → Option A → A → A
unwrap_or none a = a
unwrap_or (some b) a = b

-- `table.insert(self_id, index)` if the `self_id` is known.
unfoldable pub insert_known : Option ℤ → ℕ → HashMap ℤ ℕ → HashMap ℤ ℕ
unfolding HashMap.insert
insert_known none index table = table
insert_known (some self_id) index table = HashMap.insert self_id index table

-- `Vec::remove`
unfoldable pub remove_at {ℓ} : {A : Type ℓ} → ℕ → List A → List A
remove_at i [] = []
remove_at zero (a ∷ as') = as'
remove_at (suc i) (a ∷ as') = a ∷ remove_at i as'

abbrev pub no_adapters : GatewayError
no_adapters = internal "no adapters registered"

abbrev pub out_of_bounds : ℕ → GatewayError
out_of_bounds index = internal (append "adapter index " (append (to_string index) " out of bounds"))

module _ {F : External} {W : Type 0} where
  unfoldable pub new : ApiRouter F W
  new = record { routing_table = []; adapters = []; default_index = none }

  unfoldable pub register : ApiRouter F W → BackendAdapter F W → W → ApiRouter F W
  unfolding insert_known
  register r adapter w =
      let info = adapter.info w in
      let index = length r.adapters in
      record {
        routing_table = insert_known info.self_id index r.routing_table;
        adapters = r.adapters ++ adapter ∷ [];
        default_index = if is_some r.default_index then r.default_index else some index;
      }

  unfoldable pub associate_self_id : ApiRouter F W → ℤ → ℕ → ApiRouter F W
  unfolding HashMap.insert
  associate_self_id r self_id adapter_index = record r {
    routing_table = HashMap.insert self_id adapter_index r.routing_table;
  }

  unfoldable pub list_names : ApiRouter F W → W → List String
  list_names r w = map (λ a. (a.info w).name) r.adapters

  -- `iter().position(|a| a.info().name == name)`, counted from `i`.
  unfoldable pub position_from : String → W → ℕ → List (BackendAdapter F W) → Option ℕ
  position_from name w i [] = none
  position_from name w i (a ∷ adapters) =
      let rest = position_from name w (suc i) adapters in
      if (a.info w).name == name then some i else rest

  -- The loop that fills the cleared table again; a later adapter replaces an earlier one's entry.
  unfoldable pub rebuild : W → ℕ → List (BackendAdapter F W) → HashMap ℤ ℕ → HashMap ℤ ℕ
  unfolding insert_known
  rebuild w idx [] table = table
  rebuild w idx (a ∷ adapters) table =
      rebuild w (suc idx) adapters (insert_known (a.info w).self_id idx table)

  unfoldable pub unregister :
      ApiRouter F W → String → W → Option (BackendAdapter F W) × ApiRouter F W
  unfolding position_from remove_at rebuild
  unregister r name w = elim (position_from name w 0 r.adapters) [
    | none ↦ (none, r)
    | some pos ↦
        let adapters = remove_at pos r.adapters in
        (
          get_elem? r.adapters pos,
          record {
            routing_table = rebuild w 0 adapters [];
            adapters = adapters;
            default_index = if is_empty adapters then none else some 0;
          },
        )
  ]

  -- The index that a request is sent to.
  unfoldable pub target : ApiRouter F W → Option ℤ → ℕ
  unfolding HashMap.get
  target r none = unwrap_or r.default_index 0
  target r (some self_id) =
      unwrap_or (HashMap.get r.routing_table self_id) (unwrap_or r.default_index 0)

  abbrev pub with_name : String → Result (ApiResponse F) × W → Result (ApiResponse F × String) × W
  with_name name (ok resp, w) = (ok (resp, name), w)
  with_name name (err e, w) = (err e, w)

  -- The call of an adapter, with the name that it had before the call.
  abbrev pub call_named :
      BackendAdapter F W → ApiRequest F → W → Result (ApiResponse F × String) × W
  call_named a request w = with_name (a.info w).name (a.call_api request w)

  unfoldable pub route_named :
      ApiRouter F W → ApiRequest F → W → Result (ApiResponse F × String) × W
  unfolding target
  route_named r request w =
      let index = target r request.self_id in
      if is_empty r.adapters then (err no_adapters, w) else elim (get_elem? r.adapters index) [
        | none ↦ (err (out_of_bounds index), w)
        | some a ↦ call_named a request w
      ]

  abbrev pub without_name : Result (ApiResponse F × String) × W → Result (ApiResponse F) × W
  without_name (ok (resp, name), w) = (ok resp, w)
  without_name (err e, w) = (err e, w)

  unfoldable pub route : ApiRouter F W → ApiRequest F → W → Result (ApiResponse F) × W
  unfolding route_named
  route r request w = without_name (route_named r request w)
