-- ===== src/Core/Validation.antt =====
-- crates/ferroq-core/src/validation.rs: the checks on a loaded configuration. Each check returns
-- the issues that it pushes, in their order.
pub mod Sound
use Prim.Native.Char.{code}
use Prim.Native.String.{◌++◌ as str_append}
use ferroq.Prelude.{
  ℕ, zero, suc, ◌+◌, ltb, leb, nat_eq, String, Bool, true, false, ◌&&◌, ◌||◌, not, Option, none,
  some, List, [], ◌∷◌, ◌++◌, map, any, is_empty, ◌==◌, eq_String, if◌then◌else◌,
}
use ferroq.Prelude.Decimal.{to_string}
use ferroq.Core.External.{External}
use ferroq.Core.Config.{
  AppConfig, ServerConfig, AccountConfig, BackendConfig, ProtocolsConfig, OneBotV11Config,
  WsReverseTarget, HttpPostTarget,
}

pub data Severity : Type 0 where
  error warning : Severity

pub record ValidationIssue : Type 0 where
  pub severity : Severity
  pub path : String
  pub message : String

abbrev concat : List String → String
concat [] = ""
concat (s ∷ ss) = str_append s (concat ss)

abbrev level : Severity → String
level error = "ERROR"
level warning = "WARN"

-- `Display`
unfoldable pub show : ValidationIssue → String
show i = concat ("[" ∷ level i.severity ∷ "] " ∷ i.path ∷ ": " ∷ i.message ∷ [])

abbrev pub is_error : ValidationIssue → Bool
is_error i = elim i.severity [ error ↦ true | warning ↦ false ]

-- An issue that is pushed when a test holds.
unfoldable pub push_if : Bool → Severity → String → String → List ValidationIssue
push_if true severity path message =
    record { severity = severity; path = path; message = message } ∷ []
push_if false severity path message = []

-- The issues that one check pushes after another.
infixr 20 ◌then◌
unfoldable pub ◌then◌ : List ValidationIssue → List ValidationIssue → List ValidationIssue
xs then ys = xs ++ ys

-- The code points of a text.
abbrev pub codes : String → List ℕ
codes String.[] = []
codes (String.◌∷◌ c s) = code c ∷ codes s

-- `char::is_whitespace`
abbrev pub is_whitespace : ℕ → Bool
is_whitespace c =
    (leb 9 c && leb c 13)
    || nat_eq c 32
    || nat_eq c 133
    || nat_eq c 160
    || nat_eq c 5760
    || (leb 8192 c && leb c 8202)
    || nat_eq c 8232
    || nat_eq c 8233
    || nat_eq c 8239
    || nat_eq c 8287
    || nat_eq c 12288

-- `name.trim().is_empty()`
abbrev pub is_blank : List ℕ → Bool
is_blank [] = true
is_blank (c ∷ s) = is_whitespace c && is_blank s

-- `to_lowercase` on the letters of ASCII. No other character has a lower-case form that begins
-- one of the schemes below, so the test for a scheme has the same answer.
abbrev pub lower : ℕ → ℕ
lower c = if leb 65 c && leb c 90 then c + 32 else c

abbrev pub starts_with : List ℕ → List ℕ → Bool
starts_with s [] = true
starts_with [] (b ∷ p) = false
starts_with (a ∷ s) (b ∷ p) = nat_eq a b && starts_with s p

abbrev pub known_types : List String
known_types = "lagrange" ∷ "napcat" ∷ "official" ∷ "mock" ∷ []

abbrev pub schemes : List String
schemes = "ws://" ∷ "wss://" ∷ "http://" ∷ "https://" ∷ []

unfoldable pub valid_scheme : String → Bool
valid_scheme url = any (λ scheme. starts_with (map lower (codes url)) (codes scheme)) schemes

unfoldable pub validate_backend : BackendConfig → String → List ValidationIssue
validate_backend backend path =
    push_if (not (any (λ t. t == backend.backend_type) known_types)) warning
      (str_append path ".type")
      (concat (
        "unknown backend type \"" ∷ backend.backend_type
        ∷ "\". Known types: lagrange, napcat, official, mock" ∷ []))
    then (if backend.url == ""
        then push_if true error (str_append path ".url") "backend URL must not be empty"
        else push_if (not (valid_scheme backend.url)) error (str_append path ".url") (
            concat (
              "invalid URL scheme in \"" ∷ backend.url
              ∷ "\". Expected ws://, wss://, http://, or https://" ∷ [])))
    then push_if (nat_eq backend.reconnect_interval 0) warning
        (str_append path ".reconnect_interval")
        "reconnect_interval is 0 — this will cause tight reconnect loops"

module _ {F : External} where
  unfoldable pub validate_server : AppConfig F → List ValidationIssue
  validate_server config =
      push_if (nat_eq config.server.port 0) error "server.port" "port must be > 0"
      then push_if (config.server.host == "") error "server.host" "host must not be empty"

abbrev pub fallback_issues : String → Option BackendConfig → List ValidationIssue
unfolding validate_backend
fallback_issues path none = []
fallback_issues path (some fallback) = validate_backend fallback path

-- The loop over the accounts, from the `i`th on. `seen` is the set of the names before.
unfoldable pub validate_from : ℕ → List String → List AccountConfig → List ValidationIssue
unfolding validate_backend
validate_from i seen [] = []
validate_from i seen (account ∷ accounts) =
    let prefix = concat ("accounts[" ∷ to_string i ∷ "]" ∷ []) in
    push_if (is_blank (codes account.name)) error (str_append prefix ".name")
      "account name must not be empty"
    then push_if (any (λ n. n == account.name) seen) error (str_append prefix ".name")
        (concat ("duplicate account name: \"" ∷ account.name ∷ "\"" ∷ []))
    then validate_backend account.backend (str_append prefix ".backend")
    then fallback_issues (str_append prefix ".fallback") account.fallback
    then validate_from (suc i) (account.name ∷ seen) accounts

abbrev pub ws_reverse_issues : ℕ → List WsReverseTarget → List ValidationIssue
ws_reverse_issues i [] = []
ws_reverse_issues i (target ∷ targets) =
    push_if (target.url == "") error
      (concat ("protocols.onebot_v11.ws_reverse[" ∷ to_string i ∷ "].url" ∷ []))
      "reverse WS target URL must not be empty"
    then ws_reverse_issues (suc i) targets

abbrev pub http_post_issues : ℕ → List HttpPostTarget → List ValidationIssue
http_post_issues i [] = []
http_post_issues i (target ∷ targets) =
    push_if (target.url == "") error
      (concat ("protocols.onebot_v11.http_post[" ∷ to_string i ∷ "].url" ∷ []))
      "HTTP POST target URL must not be empty"
    then http_post_issues (suc i) targets

unfoldable pub validate_onebot_v11 : OneBotV11Config → List ValidationIssue
validate_onebot_v11 config =
    push_if
      (not config.http && not config.ws && is_empty config.ws_reverse && is_empty config.http_post)
      warning "protocols.onebot_v11"
      "OneBot v11 is enabled but no transport (http/ws/ws_reverse/http_post) is active"
    then ws_reverse_issues 0 config.ws_reverse
    then http_post_issues 0 config.http_post

-- `as_ref().is_some_and(f)`
abbrev is_some_and : {A : Type 0} → (A → Bool) → Option A → Bool
is_some_and f none = false
is_some_and f (some a) = f a

abbrev pub onebot_v11_issues : Option OneBotV11Config → List ValidationIssue
unfolding validate_onebot_v11
onebot_v11_issues none = []
onebot_v11_issues (some ob) = if ob.enabled then validate_onebot_v11 ob else []

unfoldable pub validate_accounts : List AccountConfig → List ValidationIssue
unfolding validate_from
validate_accounts [] =
    push_if true warning "accounts" "no accounts configured — the gateway will have no backends"
validate_accounts (a ∷ accounts) = validate_from 0 [] (a ∷ accounts)

unfoldable pub validate_protocols : ProtocolsConfig → List ValidationIssue
unfolding validate_onebot_v11
validate_protocols p =
    push_if
      (not (
        is_some_and (λ c. c.enabled) p.onebot_v11
        || is_some_and (λ c. c.enabled) p.onebot_v12
        || is_some_and (λ c. c.enabled) p.milky
        || is_some_and (λ c. c.enabled) p.satori))
      warning "protocols" "no protocol servers enabled — upstream bot frameworks cannot connect"
    then onebot_v11_issues p.onebot_v11

module _ {F : External} where
  unfoldable pub validate : AppConfig F → List ValidationIssue
  unfolding validate_server validate_accounts validate_protocols
  validate config =
      validate_server config
      then validate_accounts config.accounts
      then validate_protocols config.protocols

unfoldable pub has_errors : List ValidationIssue → Bool
has_errors issues = any is_error issues
