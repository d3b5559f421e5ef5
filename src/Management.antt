-- ===== src/Management.antt =====
-- crates/ferroq-gateway/src/management.rs: the handlers that reload and that show the
-- configuration. Reading the file, parsing YAML and the bytes of a text are parameters.
pub mod Reload
pub mod Redaction
pub mod Accounts
use Prim.Native.String.{◌++◌ as str_append}
use ferroq.Prelude.{
  String, Bool, true, false, not, Option, none, some, List, [], ◌∷◌, ◌++◌, map, keep, is_empty,
  ◌==◌, eq_String, ◌⊎◌, inl, inr, if◌then◌else◌,
}
use ferroq.Prelude.Decimal.{to_string}
use ferroq.Core.External.{External}
use ferroq.Core.Config.{AppConfig, AccountConfig, BackendConfig, RateLimitConfig}
use ferroq.Core.Validation.{ValidationIssue, is_error, show, validate}
use ferroq.Middleware.Text.{Text, eq_Text}
use ferroq.Middleware.Auth.{SharedConfig, access_token, set_access_token}
use ferroq.Middleware.RateLimiter.{RateLimiter, update_config}

-- The part of the state that the two handlers read or write.
pub record ManagementState : Type 0 where
  pub config_path : Option String
  pub shared_config : SharedConfig
  pub rate_limiter : Option RateLimiter

-- The JSON answers of the two handlers.
pub data ReloadReply : Type 0 where
  failed : String → ReloadReply
  invalid : List String → List String → ReloadReply
  reloaded : List String → List String → ReloadReply

pub data ConfigReply (F : External) : Type 0 where
  no_config : String → ConfigReply F
  shown : AppConfig F → ConfigReply F

abbrev pub not_available : String
not_available = "config path not available"

abbrev pub cannot_read : String → String
cannot_read e = str_append "cannot read config file: " e

abbrev pub cannot_parse : String → String
cannot_parse e = str_append "config parse error: " e

abbrev pub shown_errors : List ValidationIssue → List String
unfolding show
shown_errors issues = map show (keep is_error issues)

abbrev pub shown_warnings : List ValidationIssue → List String
unfolding show
shown_warnings issues = map show (keep (λ i. not (is_error i)) issues)

abbrev limit_change : RateLimitConfig → String
limit_change rl =
    str_append "rate_limit updated: rps="
      (str_append (to_string rl.requests_per_second) (str_append ", burst=" (to_string rl.burst)))

-- The settings that a reload applies, with what it says about them.
unfoldable pub apply_token : SharedConfig → Text → List String × SharedConfig
unfolding access_token set_access_token
apply_token cfg token =
    if not (token == access_token cfg)
    then ("access_token updated" ∷ [], set_access_token cfg token)
    else ([], cfg)

unfoldable pub apply_limits :
    Option RateLimiter → RateLimitConfig → List String × Option RateLimiter
unfolding update_config
apply_limits none limits = ([], none)
apply_limits (some rl) limits =
    (limit_change limits ∷ [], some (update_config rl limits.requests_per_second limits.burst))

module _ {F : External} (as_bytes : String → Text) where
  unfoldable pub apply : ManagementState → AppConfig F → ReloadReply × ManagementState
  unfolding validate apply_token apply_limits shown_errors shown_warnings
  apply state config =
      let issues = validate config in
      let (changed_token, shared_config) =
        apply_token state.shared_config (as_bytes config.server.access_token) in
      let (changed_limits, rate_limiter) =
        apply_limits state.rate_limiter config.server.rate_limit in
      if not (is_empty (shown_errors issues))
      then (invalid (shown_errors issues) (shown_warnings issues), state)
      else (
        reloaded (changed_token ++ changed_limits) (shown_warnings issues),
        record state { shared_config = shared_config; rate_limiter = rate_limiter },
      )

  module _ (read_to_string : String → String ⊎ String)
      (from_str : String → String ⊎ AppConfig F) where
    unfoldable pub handle_reload : ManagementState → ReloadReply × ManagementState
    handle_reload state = elim state.config_path [
      | none ↦ (failed not_available, state)
      | some config_path ↦ elim (read_to_string config_path) [
        | inl e ↦ (failed (cannot_read e), state)
        | inr config_str ↦ elim (from_str config_str) [
          | inl e ↦ (failed (cannot_parse e), state)
          | inr config ↦ apply state config
        ]
      ]
    ]

-- `if !token.is_empty() { token = "***" }`
abbrev pub mask : String → String
mask token = if token == "" then token else "***"

abbrev pub mask_backend : BackendConfig → BackendConfig
mask_backend b = record b { access_token = mask b.access_token }

abbrev pub mask_fallback : Option BackendConfig → Option BackendConfig
mask_fallback none = none
mask_fallback (some b) = some (mask_backend b)

abbrev pub mask_account : AccountConfig → AccountConfig
mask_account a = record a { backend = mask_backend a.backend; fallback = mask_fallback a.fallback }

module _ {F : External} where
  unfoldable pub redact : AppConfig F → AppConfig F
  redact config = record config {
    server = record config.server { access_token = mask config.server.access_token };
    accounts = map mask_account config.accounts;
  }

  module _ (read_to_string : String → String ⊎ String)
      (from_str : String → String ⊎ AppConfig F) where
    unfoldable pub handle_config : ManagementState → ConfigReply F
    unfolding redact
    handle_config state = elim state.config_path [
      | none ↦ no_config not_available
      | some config_path ↦ elim (read_to_string config_path) [
        | inl e ↦ no_config (cannot_read e)
        | inr config_str ↦ elim (from_str config_str) [
          | inl e ↦ no_config (cannot_parse e)
          | inr config ↦ shown (redact config)
        ]
      ]
    ]
