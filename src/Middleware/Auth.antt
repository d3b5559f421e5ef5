-- ===== src/Middleware/Auth.antt =====
-- crates/ferroq-gateway/src/middleware.rs, `check_token` and its wrappers, with
-- crates/ferroq-gateway/src/shared_config.rs. A request is what the check reads of it.
pub mod Spec
use ferroq.Prelude.{
  Bool, true, false, ◌||◌, Option, none, some, List, [], ◌∷◌, ◌==◌, any, is_empty, if◌then◌else◌,
}
use ferroq.Middleware.Text.{Text, bytes, eq_Text, strip_prefix, split_once, split}

-- `header_value` is the `authorization` header: absent, or there, with its text if `to_str`
-- finds it to be visible ASCII. `query` is the part of the URI behind the question mark.
pub record Request : Type 0 where
  pub header_value : Option (Option Text)
  pub query : Option Text

-- `next.run(request)`, or 401.
pub data Outcome : Type 0 where
  run_next unauthorized : Outcome

abbrev pub and_eq : Text → Option Text → Bool
and_eq token none = false
and_eq token (some t) = t == token

-- The two tests on the header.
unfoldable pub header_allows : Text → Option (Option Text) → Bool
unfolding strip_prefix
header_allows token (some (some value)) =
    and_eq token (strip_prefix (bytes "Bearer ") value) || value == token
header_allows token (some none) = false
header_allows token none = false

-- One round of the loop over the query: `split_once` gives the key `access_token` and the token.
unfoldable pub pair_allows : Text → Text → Bool
unfolding split_once
pair_allows token pair = elim (split_once b'=' pair) [
  | none ↦ false
  | some (key, val) ↦ if key == bytes "access_token" then val == token else false
]

unfoldable pub query_allows : Text → Option Text → Bool
unfolding pair_allows split
query_allows token none = false
query_allows token (some query) = any (pair_allows token) (split b'&' query)

unfoldable pub check_token : Text → Request → Outcome
unfolding header_allows query_allows
check_token token request =
    if is_empty token
    then run_next
    else if header_allows token request.header_value
    then run_next
    else if query_allows token request.query
    then run_next
    else unauthorized

-- `SharedConfig`: the lock around the token.
pub record SharedConfig : Type 0 where
  pub token : Text

unfoldable pub new : Text → SharedConfig
new token = record { token = token }

unfoldable pub access_token : SharedConfig → Text
access_token cfg = cfg.token

unfoldable pub set_access_token : SharedConfig → Text → SharedConfig
set_access_token cfg token = record cfg { token = token }

-- `with_dynamic_auth` reads the token at every request.
unfoldable pub with_dynamic_auth : SharedConfig → Request → Outcome
unfolding access_token check_token
with_dynamic_auth cfg request = check_token (access_token cfg) request
