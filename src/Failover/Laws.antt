-- ===== src/Failover/Laws.antt =====
-- crates/ferroq-gateway/src/adapter/failover.rs: what a pair of adapters promises as one adapter.
use ferroq.Prelude.{
  ◌≡◌, refl, ◌↔◌, ◌⊎◌, inl, inr, true, false, ◌||◌, arith, if◌then◌else◌, Bool-cases,
}
use ferroq.Core.External.{External}
use ferroq.Core.Error.{GatewayError, Result, ok, err, is_ok}
use ferroq.Core.Api.{ApiRequest, ApiResponse}
use ferroq.Failover.{FailoverAdapter, is_connection_error, connect, call_api, retry}

error_clash {ℓ} :
    {A : Type ℓ} {e e' : GatewayError}
    → ◌≡◌ {A = Result A} (err e') (err e)
    → is_connection_error e' ≡ false
    → is_connection_error e ≡ true
    → ⊥
error_clash h f t = cc

abbrev either : Result (Unit {0}) → Result (Unit {0}) → Result (Unit {0})
either r s = if is_ok r || is_ok s then ok tt else r

either_lem :
    (r s : Result (Unit {0}))
    → ((is_ok (either r s) ≡ true) ↔ ((is_ok r ≡ true) ⊎ (is_ok s ≡ true)))
      × (is_ok (either r s) ≡ false → either r s ≡ r)
either_lem (ok _) s = (ground arith, λ h. cc)
either_lem (err e) (ok _) = (ground arith, λ h. cc)
either_lem (err e) (err e') = (ground arith, λ h. refl)

module _ {F : External} {W : Type 0} (p : FailoverAdapter F W) where
  -- `connect` asks both sides in turn; it succeeds exactly if one of them does, and otherwise
  -- gives the primary's error.
  pub connect_lem :
      (w : W)
      → ((connect p w).1 ≡ (p.fallback.connect (p.primary.connect w).1).1)
        × ((is_ok (connect p w).0 ≡ true) ↔ (
            (is_ok (p.primary.connect w).0 ≡ true)
            ⊎ (is_ok (p.fallback.connect (p.primary.connect w).1).0 ≡ true)))
        × (is_ok (connect p w).0 ≡ false → (connect p w).0 ≡ (p.primary.connect w).0)
  unfolding connect
  connect_lem w =
      let law = either_lem (p.primary.connect w).0 (p.fallback.connect (p.primary.connect w).1).0 in
      (refl, law.0, law.1)

  retry-connection_error :
      (request : ApiRequest F) (r : Result (ApiResponse F)) (w : W) (e : GatewayError)
      → (retry p request r w).0 ≡ err e
      → is_connection_error e ≡ true
      → (e' : GatewayError) × (r ≡ err e')
        × (is_connection_error e' ≡ true)
        × ((p.fallback.call_api request w).0 ≡ err e)
  unfolding retry
  retry-connection_error request (ok resp) w e h c = cc
  retry-connection_error request (err e') w e h c = elim (Bool-cases (is_connection_error e')) [
    | inl yes_it ↦ (e', refl, yes_it, rw yes_it at h)
    | inr no_it ↦ absurd (error_clash (rw no_it at h) no_it c)
  ]

  -- A connection error comes out of `call_api` only if both sides failed to connect: the primary
  -- gave one, and the fallback, asked once with the same request in the world that the primary
  -- left, gave this one.
  pub call_api-connection_error :
      (request : ApiRequest F) (w : W) (e : GatewayError)
      → (call_api p request w).0 ≡ err e
      → is_connection_error e ≡ true
      → (e' : GatewayError) × ((p.primary.call_api request w).0 ≡ err e')
        × (is_connection_error e' ≡ true)
        × ((p.fallback.call_api request (p.primary.call_api request w).1).0 ≡ err e)
  unfolding call_api
  call_api-connection_error request w e h c =
      retry-connection_error request (p.primary.call_api request w).0
        (p.primary.call_api request w).1 e h c
