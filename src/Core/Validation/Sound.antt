-- ===== src/Core/Validation/Sound.antt =====
-- crates/ferroq-core/src/validation.rs: which configurations are free of errors.
use ferroq.Prelude.{
  ℕ, suc, ◌≡◌, ◌≢◌, refl, ◌↔◌, ◌⊎◌, inl, inr, ap, String, Bool, true, false, ◌&&◌, ◌||◌, not,
  Option, none, some, List, [], ◌∷◌, ◌++◌, map, arith, any, any-append, All, ◌==◌, ==_iff,
  eq_String, if◌then◌else◌, nat_eq,
}
use ferroq.Core.External.{External}
use ferroq.Core.Config.{
  AppConfig, AccountConfig, BackendConfig, OneBotV11Config, WsReverseTarget, HttpPostTarget,
}
use ferroq.Core.Validation.{
  ValidationIssue, error, warning, is_error, push_if, codes, is_whitespace, is_blank, lower,
  starts_with, valid_scheme, validate_backend, validate_server, fallback_issues, validate_from,
  ws_reverse_issues, http_post_issues, ◌then◌, validate_onebot_v11, onebot_v11_issues,
  validate_accounts, validate_protocols, validate, has_errors,
}

-- A URL that begins with the scheme, in capitals or not.
abbrev pub Begins : String → String → Type 0
Begins scheme url = (rest : List ℕ) × (map lower (codes url) ≡ codes scheme ++ rest)

abbrev pub SoundUrl : String → Type 0
SoundUrl url =
    Begins "ws://" url ⊎ (Begins "wss://" url ⊎ (Begins "http://" url ⊎ Begins "https://" url))

abbrev pub NotBlank : List ℕ → Type 0
NotBlank [] = ⊥
NotBlank (c ∷ s) = (is_whitespace c ≡ false) ⊎ NotBlank s

abbrev pub SoundFallback : Option BackendConfig → Type 0
SoundFallback none = Unit
SoundFallback (some b) = SoundUrl b.url

abbrev pub SoundAccount : AccountConfig → Type 0
SoundAccount a = NotBlank (codes a.name) × SoundUrl a.backend.url × SoundFallback a.fallback

-- No two accounts of one name.
abbrev pub Distinct : List AccountConfig → Type 0
Distinct [] = Unit
Distinct (a ∷ accounts) = All (λ b. a.name ≢ b.name) accounts × Distinct accounts

abbrev pub SoundV11 : Option OneBotV11Config → Type 0
SoundV11 none = Unit
SoundV11 (some ob) =
    ob.enabled ≡ true → All (λ t. t.url ≢ "") ob.ws_reverse × All (λ t. t.url ≢ "") ob.http_post

abbrev pub Sound : {F : External} → AppConfig F → Type 0
Sound config =
    (config.server.port ≢ 0)
    × (config.server.host ≢ "")
    × All SoundAccount config.accounts
    × Distinct config.accounts
    × SoundV11 config.protocols.onebot_v11

unfoldable Free : List ValidationIssue → Type 0
Free issues = has_errors issues ≡ false

Free-nil : Free [] ↔ Unit {0}
unfolding Free has_errors
Free-nil = (λ h. tt, λ h. refl)

Free-append : (xs ys : List ValidationIssue) → Free (xs then ys) ↔ (Free xs × Free ys)
unfolding Free has_errors push_if ◌then◌
Free-append xs ys = ground (arith, any-append is_error xs ys)

Free-warning : (b : Bool) (path message : String) → Free (push_if b warning path message)
unfolding Free has_errors push_if ◌then◌
Free-warning true path message = refl
Free-warning false path message = refl

Free-error : (b : Bool) (path message : String) → Free (push_if b error path message) ↔ (b ≡ false)
unfolding Free has_errors push_if ◌then◌
Free-error true path message = ground arith
Free-error false path message = ground arith

both :
    {P Q : Type 0} (xs ys : List ValidationIssue)
    → Free xs ↔ P
    → Free ys ↔ Q
    → Free (xs then ys) ↔ (P × Q)
both xs ys p q = ground (arith, Free-append xs ys, p, q)

after-Free :
    {P : Type 0} (xs ys : List ValidationIssue) → Free xs → Free ys ↔ P → Free (xs then ys) ↔ P
after-Free xs ys f p = ground (arith, Free-append xs ys, f, p)

before-Free :
    {P : Type 0} (xs ys : List ValidationIssue) → Free xs ↔ P → Free ys → Free (xs then ys) ↔ P
before-Free xs ys p f = ground (arith, Free-append xs ys, f, p)

Free-empty : (url path m : String) → Free (push_if (url == "") error path m) ↔ (url ≢ "")
Free-empty url path m = ground (arith, Free-error (url == "") path m, ==_iff url "")

starts_with_iff : (s p : List ℕ) → (starts_with s p ≡ true) ↔ ((rest : List ℕ) × (s ≡ p ++ rest))
starts_with_iff s [] = (λ h. (s, refl), λ h. refl)
starts_with_iff [] (b ∷ p) = (λ h. cc, λ h. cc h.1)
starts_with_iff (a ∷ s) (b ∷ p) = ground (arith, starts_with_iff s p)

and_false : (a b : Bool) → (a && b ≡ false) ↔ ((a ≡ false) ⊎ (b ≡ false))
and_false a b = ground arith

is_blank_iff : (s : List ℕ) → (is_blank s ≡ false) ↔ NotBlank s
is_blank_iff [] = ground arith
is_blank_iff (c ∷ s) =
    let (to, from) = and_false (is_whitespace c) (is_blank s) in
    (
      λ h. elim (to h) [ inl e ↦ inl e | inr e ↦ inr ((is_blank_iff s).0 e) ],
      λ h. from (elim h [ inl e ↦ inl e | inr n ↦ inr ((is_blank_iff s).1 n) ]),
    )

valid_scheme_iff : (url : String) → (valid_scheme url ≡ true) ↔ SoundUrl url
unfolding valid_scheme
valid_scheme_iff url =
    four (starts_with_iff (map lower (codes url)) (codes "ws://"))
      (starts_with_iff (map lower (codes url)) (codes "wss://"))
      (starts_with_iff (map lower (codes url)) (codes "http://"))
      (starts_with_iff (map lower (codes url)) (codes "https://"))
  where
    four :
        {a b c d : Bool} {P Q R S : Type 0}
        → (a ≡ true) ↔ P
        → (b ≡ true) ↔ Q
        → (c ≡ true) ↔ R
        → (d ≡ true) ↔ S
        → ((a || (b || (c || (d || false)))) ≡ true) ↔ (P ⊎ (Q ⊎ (R ⊎ S)))
    four p q r s = ground (arith, p, q, r, s)

-- The empty text begins with no scheme.
empty-SoundUrl : (url : String) → url ≡ "" → ¬ SoundUrl url
unfolding valid_scheme
empty-SoundUrl url e s = cc ((valid_scheme_iff url).1 s, ap valid_scheme e)

url_issues :
    (url path m n : String)
    → Free (
        if url == ""
        then push_if true error path m
        else push_if (not (valid_scheme url)) error path n)
      ↔ SoundUrl url
unfolding Free has_errors push_if ◌then◌
url_issues url path m n = ground (
  arith,
  ==_iff url "",
  valid_scheme_iff url,
  empty-SoundUrl url,
  Free-error (not (valid_scheme url)) path n,
)

validate_backend-Free :
    (b : BackendConfig) (path : String) → Free (validate_backend b path) ↔ SoundUrl b.url
unfolding validate_backend
validate_backend-Free b path =
    after-Free _ _ (Free-warning _ _ _)
      (before-Free _ _ (url_issues b.url _ _ _) (Free-warning _ _ _))

fallback-Free :
    (path : String) (o : Option BackendConfig) → Free (fallback_issues path o) ↔ SoundFallback o
unfolding Free has_errors fallback_issues validate_backend
fallback-Free path none = Free-nil
fallback-Free path (some b) = validate_backend-Free b path

-- The names that the set does not hold yet.
abbrev Unseen : List String → List AccountConfig → Type 0
Unseen seen = All (λ a. any (λ n. n == a.name) seen ≡ false)

Unseen-cons :
    (name : String) (seen : List String) (accounts : List AccountConfig)
    → Unseen (name ∷ seen) accounts ↔ (Unseen seen accounts × All (λ b. name ≢ b.name) accounts)
Unseen-cons name seen [] = ground arith
Unseen-cons name seen (a ∷ accounts) =
    ground (arith, ==_iff name a.name, Unseen-cons name seen accounts)

validate_from-cons :
    (i : ℕ) (seen : List String) (a : AccountConfig) (accounts : List AccountConfig)
    → Free (validate_from i seen (a ∷ accounts)) ↔ (
        (is_blank (codes a.name) ≡ false)
        × ((any (λ n. n == a.name) seen ≡ false)
            × (SoundUrl a.backend.url
                × (SoundFallback a.fallback
                    × Free (validate_from (suc i) (a.name ∷ seen) accounts)))))
unfolding validate_from
validate_from-cons i seen a accounts = both _ _ (Free-error _ _ _) (
    both _ _ (Free-error _ _ _) (
      both _ _ (validate_backend-Free a.backend _)
        (both _ _ (fallback-Free _ a.fallback) (λ h. h, λ h. h))))

validate_from-Free :
    (i : ℕ) (seen : List String) (accounts : List AccountConfig)
    → Free (validate_from i seen accounts)
      ↔ (All SoundAccount accounts × Unseen seen accounts × Distinct accounts)
unfolding validate_from
validate_from-Free i seen [] = unfold Free has_errors push_if in ground arith
validate_from-Free i seen (a ∷ accounts) =
    regroup (validate_from-cons i seen a accounts)
      (validate_from-Free (suc i) (a.name ∷ seen) accounts) (is_blank_iff (codes a.name))
      (Unseen-cons a.name seen accounts)
  where
    regroup :
        {P Q B N S U T R D X Y A : Type 0}
        → P ↔ (B × (S × (U × (T × Q))))
        → Q ↔ (R × X × D)
        → B ↔ N
        → X ↔ (Y × A)
        → P ↔ (((N × U × T) × R) × (S × Y) × (A × D))
    regroup e h f g = ground (arith, e, h, f, g)

ws_reverse-Free :
    (i : ℕ) (ts : List WsReverseTarget) → Free (ws_reverse_issues i ts) ↔ All (λ t. t.url ≢ "") ts
ws_reverse-Free i [] = unfold Free has_errors push_if in ground arith
ws_reverse-Free i (t ∷ ts) = both _ _ (Free-empty t.url _ _) (ws_reverse-Free (suc i) ts)

http_post-Free :
    (i : ℕ) (ts : List HttpPostTarget) → Free (http_post_issues i ts) ↔ All (λ t. t.url ≢ "") ts
http_post-Free i [] = unfold Free has_errors push_if in ground arith
http_post-Free i (t ∷ ts) = both _ _ (Free-empty t.url _ _) (http_post-Free (suc i) ts)

onebot_v11-Free : (o : Option OneBotV11Config) → Free (onebot_v11_issues o) ↔ SoundV11 o
unfolding validate_onebot_v11
onebot_v11-Free none = unfold Free has_errors push_if in ground arith
onebot_v11-Free (some ob) = enabled_only ob.enabled _ (
    after-Free _ _ (Free-warning _ _ _)
      (both _ _ (ws_reverse-Free 0 ob.ws_reverse) (http_post-Free 0 ob.http_post)))
  where
    enabled_only :
        {P : Type 0} (b : Bool) (issues : List ValidationIssue)
        → Free issues ↔ P
        → Free (if b then issues else []) ↔ (b ≡ true → P)
    enabled_only true issues e = (λ h q. e.0 h, λ h. e.1 (h refl))
    enabled_only false issues e = unfold Free has_errors push_if in (λ h q. cc q, λ h. refl)

validate_accounts-Free :
    (accounts : List AccountConfig)
    → Free (validate_accounts accounts) ↔ (All SoundAccount accounts × Distinct accounts)
unfolding validate_accounts
validate_accounts-Free [] = unfold Free has_errors push_if in ground arith
validate_accounts-Free (a ∷ accounts) =
    let e = validate_from-Free 0 [] (a ∷ accounts) in
    (λ h. ((e.0 h).0, (e.0 h).2), λ h. e.1 (h.0, none_seen (a ∷ accounts), h.1))
  where
    none_seen : (rest : List AccountConfig) → Unseen [] rest
    none_seen [] = tt
    none_seen (b ∷ rest) = (refl, none_seen rest)

validate-Free :
    {F : External} (config : AppConfig F)
    → Free (validate config) ↔ (
        ((nat_eq config.server.port 0 ≡ false) × (config.server.host ≢ ""))
        × ((All SoundAccount config.accounts × Distinct config.accounts)
            × SoundV11 config.protocols.onebot_v11))
unfolding validate validate_server validate_protocols
validate-Free config = both _ _ (both _ _ (Free-error _ _ _) (Free-empty config.server.host _ _)) (
    both _ _ (validate_accounts-Free config.accounts)
      (after-Free _ _ (Free-warning _ _ _) (onebot_v11-Free config.protocols.onebot_v11)))

-- The checks find no error exactly in a configuration with a port and a host, whose accounts have
-- distinct names that are not blank and URLs of one of the four schemes, for their fallbacks too,
-- and whose OneBot v11 server, if it is enabled, has no target without a URL.
pub validate-has_errors_iff :
    {F : External} (config : AppConfig F) → (has_errors (validate config) ≡ false) ↔ Sound config
unfolding Free
validate-has_errors_iff config = regroup (validate-Free config) (zero_test config.server.port)
  where
    zero_test : (n : ℕ) → (nat_eq n 0 ≡ false) ↔ (n ≢ 0)
    zero_test n = ground arith

    regroup :
        {P Z N H A D V : Type 0} → P ↔ ((Z × H) × ((A × D) × V)) → Z ↔ N → P ↔ (N × H × A × D × V)
    regroup e f = ground (arith, e, f)
