-- ===== src/Management/Redaction.antt =====
-- crates/ferroq-gateway/src/management.rs, `handle_config`: what its redaction hides.
use mathlib.Core.Path.{subst}
use ferroq.Prelude.{
  ◌≡◌, ◌≢◌, refl, sym, ap, ◌∙◌, String, Option, none, some, List, [], ◌∷◌, ◌++◌, map, eq_String,
  ◌⊎◌, inl, inr, Bool-cases, ◌==◌, ==_iff, Option-cases, Sum-cases,
}
use ferroq.Core.External.{External}
use ferroq.Core.Config.{AppConfig, AccountConfig, BackendConfig, OneBotV11Config}
use ferroq.Management.{
  not_available, cannot_read, cannot_parse, ManagementState, shown, no_config, mask, mask_fallback,
  mask_account, redact, handle_config,
}

abbrev fallback_token : Option BackendConfig → List String
fallback_token none = []
fallback_token (some b) = b.access_token ∷ []

abbrev account_tokens : List AccountConfig → List String
account_tokens [] = []
account_tokens (a ∷ accounts) =
    a.backend.access_token ∷ (fallback_token a.fallback ++ account_tokens accounts)

-- The tokens of the server, the backends and their fallbacks.
abbrev tokens_of : {F : External} → AppConfig F → List String
tokens_of config = config.server.access_token ∷ account_tokens config.accounts

-- What stands for a token: stars, or nothing if it is empty.
abbrev stars : String → String
stars String.[] = ""
stars (String.◌∷◌ c token) = "***"

mask-stars : (token : String) → mask token ≡ stars token
mask-stars String.[] = refl
mask-stars (String.◌∷◌ c token) = elim (Bool-cases (String.◌∷◌ c token == "")) [
  | inl e ↦ cc ((==_iff (String.◌∷◌ c token) "").0 e)
  | inr e ↦ rw e refl
]

map-mask : (tokens : List String) → map mask tokens ≡ map stars tokens
map-mask [] = refl
map-mask (t ∷ tokens) = rw (mask-stars t, map-mask tokens) refl

-- A configuration without the tokens of the server, the backends and their fallbacks.
abbrev blank_backend : BackendConfig → BackendConfig
blank_backend b = record b { access_token = "" }

abbrev blank_fallback : Option BackendConfig → Option BackendConfig
blank_fallback none = none
blank_fallback (some b) = some (blank_backend b)

abbrev blank_account : AccountConfig → AccountConfig
blank_account a = record a {
  backend = blank_backend a.backend;
  fallback = blank_fallback a.fallback;
}

abbrev without_tokens : {F : External} → AppConfig F → AppConfig F
without_tokens config = record config {
  server = record config.server { access_token = "" };
  accounts = map blank_account config.accounts;
}

blank-mask_fallback :
    (o : Option BackendConfig) → blank_fallback (mask_fallback o) ≡ blank_fallback o
blank-mask_fallback none = refl
blank-mask_fallback (some b) = refl

blank-mask_account :
    (accounts : List AccountConfig)
    → map blank_account (map mask_account accounts) ≡ map blank_account accounts
blank-mask_account [] = refl
blank-mask_account (a ∷ accounts) =
    rw (blank-mask_fallback a.fallback, blank-mask_account accounts) refl

abbrev v11_secrets : Option OneBotV11Config → List String
v11_secrets none = []
v11_secrets (some ob) = map (λ t. t.access_token) ob.ws_reverse ++ map (λ t. t.secret) ob.http_post

-- The tokens and the secrets of the targets of the OneBot v11 server.
abbrev secrets_of : {F : External} → AppConfig F → List String
secrets_of config = v11_secrets config.protocols.onebot_v11

tokens-mask :
    (accounts : List AccountConfig)
    → account_tokens (map mask_account accounts) ≡ map mask (account_tokens accounts)
tokens-mask [] = refl
tokens-mask (a ∷ accounts) =
    ap (◌∷◌ (mask a.backend.access_token)) (rest a.fallback (tokens-mask accounts))
  where
    rest :
        (o : Option BackendConfig)
        → account_tokens (map mask_account accounts) ≡ map mask (account_tokens accounts)
        → fallback_token (mask_fallback o) ++ account_tokens (map mask_account accounts)
          ≡ map mask (fallback_token o ++ account_tokens accounts)
    rest none e = e
    rest (some b) e = ap (◌∷◌ (mask b.access_token)) e

tokens_of-redact : {F : External} (c : AppConfig F) → tokens_of (redact c) ≡ map stars (tokens_of c)
unfolding redact
tokens_of-redact c =
    ap (◌∷◌ (mask c.server.access_token)) (tokens-mask c.accounts) ∙ map-mask (tokens_of c)

without_tokens-redact :
    {F : External} (c : AppConfig F) → without_tokens (redact c) ≡ without_tokens c
unfolding redact
without_tokens-redact c = rw (blank-mask_account c.accounts) refl

shown_inj : {F : External} {c d : AppConfig F} → shown c ≡ shown d → c ≡ d
shown_inj e = cc

-- Three stars stand in place of every token that is not empty, and nothing else is changed.
pub record IsRedacted {F : External} (c d : AppConfig F) : Type 0 where
  pub tokens : tokens_of d ≡ map stars (tokens_of c)
  pub rest : without_tokens d ≡ without_tokens c
  pub secrets : secrets_of d ≡ secrets_of c

not_shown : {F : External} {m : String} {d : AppConfig F} → no_config m ≢ shown d
not_shown e = cc

redact-IsRedacted : {F : External} (c : AppConfig F) → IsRedacted c (redact c)
unfolding redact
redact-IsRedacted c = record {
  tokens = tokens_of-redact c;
  rest = without_tokens-redact c;
  secrets = refl;
}

shown-IsRedacted : {F : External} (c d : AppConfig F) → shown (redact c) ≡ shown d → IsRedacted c d
shown-IsRedacted c d e = subst (IsRedacted c) (shown_inj e) (redact-IsRedacted c)

module _ {F : External} (read_to_string : String → String ⊎ String)
    (from_str : String → String ⊎ AppConfig F) where
  shows :
      (state : ManagementState) (path text : String) (c : AppConfig F)
      → state.config_path ≡ some path
      → read_to_string path ≡ inr text
      → from_str text ≡ inr c
      → handle_config read_to_string from_str state ≡ shown (redact c)
  unfolding handle_config
  shows state path text c e f g = simp (e, f, g, handle_config)

  refused :
      (state : ManagementState) (m : String) (d : AppConfig F)
      → handle_config read_to_string from_str state ≡ no_config m
      → handle_config read_to_string from_str state ≢ shown d
  refused state m d e h = not_shown (sym e ∙ h)

  -- What the handler shows is the configuration in the file with three stars in place of every
  -- token of the server, the backends and the fallbacks that is not empty, and with nothing else
  -- changed; so the tokens and secrets of the OneBot v11 targets are shown as they stand in the
  -- file.
  pub handle_config-shown :
      (state : ManagementState) (d : AppConfig F)
      → handle_config read_to_string from_str state ≡ shown d
      → (path : String) × (text : String) × (c : AppConfig F) × (state.config_path ≡ some path)
        × (read_to_string path ≡ inr text)
        × (from_str text ≡ inr c)
        × IsRedacted c d
  unfolding handle_config
  handle_config-shown state d h = elim (Option-cases state.config_path) [
    | inl e ↦ absurd (refused state not_available d (simp (e, handle_config)) h)
    | inr (path, e) ↦ elim (Sum-cases (read_to_string path)) [
      | inl (m, f) ↦ absurd (refused state (cannot_read m) d (simp (e, f, handle_config)) h)
      | inr (text, f) ↦ elim (Sum-cases (from_str text)) [
        | inl (m, g) ↦ absurd (refused state (cannot_parse m) d (simp (e, f, g, handle_config)) h)
        | inr (c, g) ↦
            (path, text, c, e, f, g, shown-IsRedacted c d (sym (shows state path text c e f g) ∙ h))
      ]
    ]
  ]
