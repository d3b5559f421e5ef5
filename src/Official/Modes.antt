-- ===== src/Official/Modes.antt =====
-- crates/ferroq-gateway/src/adapter/official.rs, `candidate_modes`: which forms of a request are
-- tried.
use ferroq.Prelude.{
  ℕ, suc, ◌≡◌, refl, Bool, true, false, ◌||◌, Option, none, some, List, [], ◌∷◌, if◌then◌else◌,
}
use ferroq.Prelude.Str.{contains}
use ferroq.Official.{
  ApiPathMode, template, api_prefixed, direct_action, legacy_body, mode_eq, Inner, OfficialAdapter,
  candidate_modes, modes_for,
}

abbrev pub count_mode : ApiPathMode → List ApiPathMode → ℕ
count_mode m [] = 0
count_mode m (n ∷ modes) = if mode_eq n m then suc (count_mode m modes) else count_mode m modes

abbrev prefers : Option ApiPathMode → ApiPathMode → Bool
prefers none m = false
prefers (some n) m = mode_eq n m

-- The template form makes sense only for a URL with the placeholder.
abbrev wanted_if : Bool → Option ApiPathMode → ApiPathMode → Bool
wanted_if has_placeholder o template = has_placeholder || prefers o template
wanted_if has_placeholder o _ = true

abbrev pub wanted : OfficialAdapter → Inner → ApiPathMode → Bool
wanted a inner m = wanted_if (contains a.url "{action}") inner.preferred_mode m

candidates :
    (b : Bool) (o : Option ApiPathMode) (m : ApiPathMode)
    → count_mode m (modes_for b o) ≡ (if wanted_if b o m then 1 else 0)
unfolding modes_for
candidates true none template = refl
candidates false none template = refl
candidates true none api_prefixed = refl
candidates true none direct_action = refl
candidates true none legacy_body = refl
candidates true (some template) template = refl
candidates true (some template) api_prefixed = refl
candidates true (some template) direct_action = refl
candidates true (some template) legacy_body = refl
candidates true (some api_prefixed) template = refl
candidates true (some api_prefixed) api_prefixed = refl
candidates true (some api_prefixed) direct_action = refl
candidates true (some api_prefixed) legacy_body = refl
candidates true (some direct_action) template = refl
candidates true (some direct_action) api_prefixed = refl
candidates true (some direct_action) direct_action = refl
candidates true (some direct_action) legacy_body = refl
candidates true (some legacy_body) template = refl
candidates true (some legacy_body) api_prefixed = refl
candidates true (some legacy_body) direct_action = refl
candidates true (some legacy_body) legacy_body = refl
candidates false none api_prefixed = refl
candidates false none direct_action = refl
candidates false none legacy_body = refl
candidates false (some template) template = refl
candidates false (some template) api_prefixed = refl
candidates false (some template) direct_action = refl
candidates false (some template) legacy_body = refl
candidates false (some api_prefixed) template = refl
candidates false (some api_prefixed) api_prefixed = refl
candidates false (some api_prefixed) direct_action = refl
candidates false (some api_prefixed) legacy_body = refl
candidates false (some direct_action) template = refl
candidates false (some direct_action) api_prefixed = refl
candidates false (some direct_action) direct_action = refl
candidates false (some direct_action) legacy_body = refl
candidates false (some legacy_body) template = refl
candidates false (some legacy_body) api_prefixed = refl
candidates false (some legacy_body) direct_action = refl
candidates false (some legacy_body) legacy_body = refl

abbrev pub first_mode : List ApiPathMode → Option ApiPathMode
first_mode [] = none
first_mode (m ∷ modes) = some m

first : (b : Bool) (n : ApiPathMode) → first_mode (modes_for b (some n)) ≡ some n
unfolding modes_for
first true template = refl
first true api_prefixed = refl
first true direct_action = refl
first true legacy_body = refl
first false template = refl
first false api_prefixed = refl
first false direct_action = refl
first false legacy_body = refl

-- A call tries each form of a request exactly once, except the template form, which it tries only
-- if the URL has the placeholder or the form worked before; it starts with the form that worked.
pub candidate_modes_lem :
    (a : OfficialAdapter) (inner : Inner) (m : ApiPathMode)
    → (count_mode m (candidate_modes a inner) ≡ (if wanted a inner m then 1 else 0))
      × (inner.preferred_mode ≡ some m → first_mode (candidate_modes a inner) ≡ some m)
unfolding candidate_modes
candidate_modes_lem a inner m = (
  candidates (contains a.url "{action}") inner.preferred_mode m,
  λ e. rw (e) (first (contains a.url "{action}") m),
)
