-- ===== src/Official/Calls.antt =====
-- crates/ferroq-gateway/src/adapter/official.rs, `discover_and_call`: what a call does to the
-- backend, and what it learns from it.
use mathlib.Core.Path.{subst}
use ferroq.Prelude.{◌≡◌, refl, sym, ap, inl, inr, Option, none, some, List, [], ◌∷◌, ◌++◌}
use ferroq.Core.External.{External}
use ferroq.Core.Json.{JsonValue}
use ferroq.Core.Error.{GatewayError, Result, ok, err, Result-cases}
use ferroq.Core.Api.{ApiRequest, ApiResponse}
use ferroq.Official.{
  ApiPathMode, Inner, OfficialAdapter, Client, candidate_modes, call_with_mode, try_modes,
  discover_and_call,
}

module _ {F : External} {W : Type 0} (J : JsonValue F.Value) (C : Client F W) (a : OfficialAdapter)
    (request : ApiRequest F) where
  abbrev called : ApiPathMode → W → Result (ApiResponse F) × W
  called m w = call_with_mode {F = F} J C a m request w

  -- The request was sent in these forms in turn, and none succeeded.
  pub data AllFail : List ApiPathMode → W → W → Type 0 where
    no_mode : {w : W} → AllFail [] w w
    failed :
        {m : ApiPathMode} {modes : List ApiPathMode} {w w' : W} (e : GatewayError)
        → (called m w).0 ≡ err e
        → AllFail modes (called m w).1 w'
        → AllFail (m ∷ modes) w w'

  abbrev pub Tried : List ApiPathMode → Inner → W → Result (ApiResponse F) × Inner × W → Type 0
  Tried modes inner w (ok resp, inner', w') =
      (before : List ApiPathMode) × (m : ApiPathMode) × (rest : List ApiPathMode) × (w₁ : W)
      × (modes ≡ before ++ m ∷ rest)
      × AllFail before w w₁
      × ((called m w₁).0 ≡ ok resp)
      × ((called m w₁).1 ≡ w')
      × (inner' ≡ record inner { preferred_mode = some m })
  Tried modes inner w (err e, inner', w') = AllFail modes w w' × (inner' ≡ inner)

  later-Tried :
      (m : ApiPathMode) (modes : List ApiPathMode) (inner : Inner) (w : W) (e : GatewayError)
      (r : Result (ApiResponse F) × Inner × W)
      → (called m w).0 ≡ err e
      → Tried modes inner (called m w).1 r
      → Tried (m ∷ modes) inner w r
  later-Tried m modes inner w e (ok resp, inner', w') h
        (before, n, rest, w₁, split, fails, answer, left, learnt) =
      (m ∷ before, n, rest, w₁, ap (◌∷◌ m) split, failed e h fails, answer, left, learnt)
  later-Tried m modes inner w e (err e', inner', w') h (fails, same) = (failed e h fails, same)

  pub try_modes-ok :
      (m : ApiPathMode) (modes : List ApiPathMode) (last : Option GatewayError) (inner : Inner)
      (w : W) (resp : ApiResponse F)
      → (called m w).0 ≡ ok resp
      → try_modes {F = F} J C a request (m ∷ modes) last (inner, w)
        ≡ (ok resp, record inner { preferred_mode = some m }, (called m w).1)
  unfolding try_modes
  try_modes-ok m modes last inner w resp h = rw (h, try_modes) refl

  pub try_modes-err :
      (m : ApiPathMode) (modes : List ApiPathMode) (last : Option GatewayError) (inner : Inner)
      (w : W) (e : GatewayError)
      → (called m w).0 ≡ err e
      → try_modes {F = F} J C a request (m ∷ modes) last (inner, w)
        ≡ try_modes {F = F} J C a request modes (some e) (inner, (called m w).1)
  unfolding try_modes
  try_modes-err m modes last inner w e h = rw (h, try_modes) refl

  pub try_modes_lem :
      (modes : List ApiPathMode) (last : Option GatewayError) (inner : Inner) (w : W)
      → Tried modes inner w (try_modes {F = F} J C a request modes last (inner, w))
  unfolding try_modes
  try_modes_lem [] last inner w = (no_mode, refl)
  try_modes_lem (m ∷ modes) last inner w = elim (Result-cases (called m w).0) [
    | inl (resp, h) ↦
        subst (Tried (m ∷ modes) inner w) (sym (try_modes-ok m modes last inner w resp h))
          ([], m, modes, w, refl, no_mode, h, refl, refl)
    | inr (e, h) ↦
        subst (Tried (m ∷ modes) inner w) (sym (try_modes-err m modes last inner w e h)) (
          later-Tried m modes inner w e
            (try_modes {F = F} J C a request modes (some e) (inner, (called m w).1)) h
            (try_modes_lem modes (some e) inner (called m w).1))
  ]

  -- A call that succeeds was answered by the last form tried, every form before it in the list of
  -- candidates having failed, in order, and this form is remembered; a call that fails was sent in
  -- each of the candidate forms in turn, none of which succeeded, and changes nothing remembered.
  pub discover_and_call_lem :
      (inner : Inner) (w : W)
      → Tried (candidate_modes a inner) inner w (discover_and_call {F = F} J C a request (inner, w))
  unfolding discover_and_call
  discover_and_call_lem inner w = try_modes_lem (candidate_modes a inner) none inner w
