-- ===== src/Runtime/Refresh.antt =====
-- crates/ferroq-gateway/src/runtime.rs: an undisturbed round of the stats refresher.
use ferroq.Prelude.{
  ℕ, suc, ◌+◌, ◌-◌, ◌%◌, ◌^◌, ◌<◌, ◌≡◌, refl, inl, inr, String, some, List, [], ◌∷◌, length,
  length-map, arith, ◌==◌, eq_String, Option-cases, Bool-cases,
}
use ferroq.Core.External.{External}
use ferroq.Core.Adapter.{AdapterInfo, BackendAdapter}
use ferroq.Router
use ferroq.Router.{ApiRouter, associate_self_id}
use ferroq.Router.Valid.{IsValid, associate_self_id-IsValid}
use ferroq.Stats.{AdapterSnapshot, RuntimeStats, update_adapters}
use ferroq.AdapterManager
use ferroq.AdapterManager.{AdapterManager}
use ferroq.Runtime.{position, associate_known, refresh_each, refresh}

position-le :
    (name : String) (i k : ℕ) (names : List String)
    → position name i names ≡ some k
    → k < i + length names
unfolding position
position-le name i k [] h = cc
position-le name i k (n ∷ names) h = elim (Bool-cases (n == name)) [
  | inl e ↦ ground arith
  | inr e ↦ omega (arith, position-le name (suc i) k names (rw e at h))
]

module _ {F : External} {W : Type 0} where
  associate_known-IsValid :
      (names : List String) (info : AdapterInfo) (r : ApiRouter F W)
      → length names ≡ length r.adapters
      → IsValid r
      → IsValid (associate_known names info r)
        × (length names ≡ length (associate_known names info r).adapters)
  unfolding associate_known
  associate_known-IsValid names info r same v = elim (Option-cases info.self_id) [
    | inl e ↦ rw (e, associate_known) (v, same)
    | inr (s, e) ↦ elim (Option-cases (position info.name 0 names)) [
      | inl f ↦ rw (e, f, associate_known) (v, same)
      | inr (i, f) ↦
          rw (e, f, associate_known)
            (
              associate_self_id-IsValid r s i v (omega (arith, position-le info.name 0 i names f)),
              unfold associate_self_id in same,
            )
    ]
  ]

  module _ (secs millis : W → ℕ) where
    -- What a snapshot says of an adapter whose turn comes in this world.
    pub record IsSnapshot (s : AdapterSnapshot) (a : BackendAdapter F W) (w : W) : Type 0 where
      pub name : s.name ≡ (a.info w).name
      pub backend_type : s.backend_type ≡ (a.info w).backend_type
      pub url : s.url ≡ (a.info w).url
      pub state : s.state ≡ (a.info w).state
      pub self_id : s.self_id ≡ (a.info w).self_id
      pub healthy : s.healthy ≡ (a.health_check w).0
      pub health_check_ms :
          s.health_check_ms ≡ some ((millis (a.health_check w).1 - millis w) % 2 ^ 64)
      pub last_health_check : s.last_health_check ≡ some (secs (a.health_check w).1)

    -- One snapshot for each adapter, in their order, each health check in the world that the one
    -- before it leaves.
    abbrev pub Snapshots : List AdapterSnapshot → List (BackendAdapter F W) → W → Type 0
    Snapshots [] [] w = Unit
    Snapshots [] (a ∷ adapters) w = ⊥
    Snapshots (s ∷ snapshots) [] w = ⊥
    Snapshots (s ∷ snapshots) (a ∷ adapters) w =
        IsSnapshot s a w × Snapshots snapshots adapters (a.health_check w).1

    refresh_each-IsValid :
        (names : List String) (adapters : List (BackendAdapter F W)) (r : ApiRouter F W) (w : W)
        → length names ≡ length r.adapters
        → IsValid r
        → IsValid (refresh_each secs millis names adapters r w).1
          × Snapshots (refresh_each secs millis names adapters r w).0 adapters w
    unfolding refresh_each
    refresh_each-IsValid names [] r w same v = (v, tt)
    refresh_each-IsValid names (a ∷ adapters) r w same v =
        let (v', same') = associate_known-IsValid names (a.info w) r same v in
        let (done, described) =
          refresh_each-IsValid names adapters _ (a.health_check w).1 same' v' in
        (
          done,
          (
            record {
              name = refl;
              backend_type = refl;
              url = refl;
              state = refl;
              self_id = refl;
              healthy = refl;
              health_check_ms = refl;
              last_health_check = refl;
            },
            described,
          ),
        )

    -- A round of the stats refresher that nothing comes in between of keeps every index of a router
    -- in range, if it was in range before, and leaves one snapshot for each live adapter, in their
    -- order, with what the adapter said of itself before its health check, and with the result, the
    -- time and the duration of this.
    pub refresh-IsValid :
        (m : AdapterManager F W) (stats : RuntimeStats) (w : W)
        → IsValid m.router
        → IsValid (refresh secs millis m stats w).0.router
          × Snapshots (refresh secs millis m stats w).1.adapters (AdapterManager.adapters m) w
    unfolding refresh update_adapters
    refresh-IsValid m stats w v =
        refresh_each-IsValid (Router.list_names m.router w) (AdapterManager.adapters m) m.router w
          (unfold Router.list_names in
            length-map (λ (a : BackendAdapter F W). (a.info w).name) m.router.adapters)
          v
