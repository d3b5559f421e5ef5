-- ===== src/Management/Reload.antt =====
-- crates/ferroq-gateway/src/management.rs, `handle_reload`: what a reload changes.
use ferroq.Prelude.{
  ◌≡◌, refl, String, true, false, not, Option, none, some, List, [], ◌∷◌, is_empty, arith, ==_iff,
  ◌⊎◌, inl, inr, Option-cases, Sum-cases, Bool-cases,
}
use ferroq.Core.External.{External}
use ferroq.Core.Config.{AppConfig, RateLimitConfig}
use ferroq.Core.Validation.{ValidationIssue, is_error, validate, has_errors}
use ferroq.Core.Validation.Sound.{Sound, validate-has_errors_iff}
use ferroq.Middleware.Text.{Text, eq_Text}
use ferroq.Middleware.Auth.{SharedConfig, access_token, set_access_token}
use ferroq.Middleware.RateLimiter.{RateLimiter}
use ferroq.Management.{
  not_available, cannot_read, cannot_parse, ManagementState, ReloadReply, failed, invalid, reloaded,
  shown_errors, apply_token, apply_limits, apply, handle_reload,
}

abbrev opt_map : {A B : Type 0} → (A → B) → Option A → Option B
opt_map f none = none
opt_map f (some a) = some (f a)

abbrev pub with_limits : RateLimitConfig → RateLimiter → RateLimiter
with_limits limits rl = record rl { rps = limits.requests_per_second; burst = limits.burst }

-- The token and the limits of a configuration, in place of the old ones.
abbrev pub with_settings : {F : External} → Text → AppConfig F → ManagementState → ManagementState
with_settings token config state = record state {
  shared_config = record { token = token };
  rate_limiter = opt_map (with_limits config.server.rate_limit) state.rate_limiter;
}

abbrev pub Reloaded : ReloadReply → Type 0
Reloaded (failed m) = ⊥
Reloaded (invalid es ws) = ⊥
Reloaded (reloaded cs ws) = Unit

token_applied :
    (cfg : SharedConfig) (token : Text) → (apply_token cfg token).1 ≡ record { token = token }
unfolding apply_token access_token set_access_token
token_applied cfg token = ground (arith, ==_iff token cfg.token)

limits_applied :
    (o : Option RateLimiter) (limits : RateLimitConfig)
    → (apply_limits o limits).1 ≡ opt_map (with_limits limits) o
unfolding apply_limits
limits_applied none limits = refl
limits_applied (some rl) limits = refl

shown_errors_iff :
    (issues : List ValidationIssue) → is_empty (shown_errors issues) ≡ not (has_errors issues)
unfolding has_errors shown_errors
shown_errors_iff [] = refl
shown_errors_iff (i ∷ issues) = elim (Bool-cases (is_error i)) [
  | inl e ↦ rw e refl
  | inr e ↦ rw e (shown_errors_iff issues)
]

module _ {F : External} (as_bytes : String → Text) where
  abbrev settings_of : AppConfig F → ManagementState → ManagementState
  settings_of config = with_settings (as_bytes config.server.access_token) config

  apply_sound :
      (state : ManagementState) (config : AppConfig F)
      → has_errors (validate config) ≡ false
      → Reloaded (apply as_bytes state config).0
        × ((apply as_bytes state config).1 ≡ settings_of config state)
  unfolding apply
  apply_sound state config h =
      rw
        (
          shown_errors_iff (validate config),
          h,
          token_applied state.shared_config (as_bytes config.server.access_token),
          limits_applied state.rate_limiter config.server.rate_limit,
        )
        (tt, refl)

  apply_unsound :
      (state : ManagementState) (config : AppConfig F)
      → has_errors (validate config) ≡ true
      → (¬ Reloaded (apply as_bytes state config).0) × ((apply as_bytes state config).1 ≡ state)
  unfolding apply
  apply_unsound state config h = rw (shown_errors_iff (validate config), h) (λ r. r, refl)

  module _ (read_to_string : String → String ⊎ String)
      (from_str : String → String ⊎ AppConfig F) where
    -- The file is there, can be read and parsed, and says what the configuration is.
    abbrev pub Holds : ManagementState → AppConfig F → Type 0
    Holds state config =
        (path : String) × (text : String) × (state.config_path ≡ some path)
        × (read_to_string path ≡ inr text)
        × (from_str text ≡ inr config)

    handle_reload-Holds :
        (state : ManagementState) (config : AppConfig F)
        → Holds state config
        → handle_reload as_bytes read_to_string from_str state ≡ apply as_bytes state config
    unfolding handle_reload
    handle_reload-Holds state config (path, text, e, f, g) = simp (e, f, g, handle_reload)

    untouched :
        (state : ManagementState) (m : String)
        → handle_reload as_bytes read_to_string from_str state ≡ (failed m, state)
        → (¬ Reloaded (handle_reload as_bytes read_to_string from_str state).0)
          × ((handle_reload as_bytes read_to_string from_str state).1 ≡ state)
    untouched state m e = rw e (λ r. r, refl)

    -- When the file holds a configuration that is sound, a reload succeeds, and the access token and
    -- the limits of the rate limiter, if there is one, are those of the file.
    pub handle_reload-Sound :
        (state : ManagementState) (config : AppConfig F)
        → Holds state config
        → Sound config
        → Reloaded (handle_reload as_bytes read_to_string from_str state).0
          × ((handle_reload as_bytes read_to_string from_str state).1 ≡ settings_of config state)
    handle_reload-Sound state config (path, text, e, f, g) s =
        rw (handle_reload-Holds state config (path, text, e, f, g))
          (apply_sound state config ((validate-has_errors_iff config).1 s))

    -- A reload either does not succeed and changes nothing, or it has found a sound configuration
    -- in the file, succeeds, and puts the token and the limits of this configuration in place.
    pub handle_reload-cases :
        (state : ManagementState)
        → ((¬ Reloaded (handle_reload as_bytes read_to_string from_str state).0)
            × ((handle_reload as_bytes read_to_string from_str state).1 ≡ state))
          ⊎ ((config : AppConfig F) × Holds state config
              × Sound config
              × Reloaded (handle_reload as_bytes read_to_string from_str state).0
              × ((handle_reload as_bytes read_to_string from_str state).1
                  ≡ settings_of config state))
    unfolding handle_reload
    handle_reload-cases state = elim (Option-cases state.config_path) [
      | inl e ↦ inl (untouched state not_available (simp (e, handle_reload)))
      | inr (path, e) ↦ elim (Sum-cases (read_to_string path)) [
        | inl (m, f) ↦ inl (untouched state (cannot_read m) (simp (e, f, handle_reload)))
        | inr (text, f) ↦ elim (Sum-cases (from_str text)) [
          | inl (m, g) ↦ inl (untouched state (cannot_parse m) (simp (e, f, g, handle_reload)))
          | inr (config, g) ↦ elim (Bool-cases (has_errors (validate config))) [
            | inl h ↦ inl (
                rw (handle_reload-Holds state config (path, text, e, f, g))
                  (apply_unsound state config h))
            | inr h ↦
                let sound = (validate-has_errors_iff config).0 h in
                let done = handle_reload-Sound state config (path, text, e, f, g) sound in
                inr (config, (path, text, e, f, g), sound, done.0, done.1)
          ]
        ]
      ]
    ]
