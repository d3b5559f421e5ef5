-- ===== src/Middleware/Auth/Spec.antt =====
-- crates/ferroq-gateway/src/middleware.rs: who passes `check_token`.
use ferroq.Prelude.{
  ◌≡◌, ◌↔◌, ◌⊎◌, inl, inr, ap, true, Option, none, some, List, [], ◌∷◌, ◌++◌, arith, any, is_empty,
  Option-cases, All,
}
use ferroq.Middleware.Text.{
  Text, bytes, eq_Text, text_eq_iff, strip_prefix, strip_prefix_iff, split_once, split_once_of,
  split_once-eq, split, split-join, join, Without,
}
use ferroq.Middleware.Auth.{
  Request, run_next, header_allows, pair_allows, query_allows, check_token,
}

-- The pair of a query that carries the token.
abbrev pub token_pair : Text → Text
token_pair token = bytes "access_token=" ++ token

abbrev pub Among : Text → List Text → Type 0
Among a [] = ⊥
Among a (x ∷ xs) = (x ≡ a) ⊎ Among a xs

-- The two forms of the header.
abbrev pub HeaderHas : Text → Option (Option Text) → Type 0
HeaderHas token (some (some value)) = (value ≡ bytes "Bearer " ++ token) ⊎ (value ≡ token)
HeaderHas token (some none) = ⊥
HeaderHas token none = ⊥

abbrev pub QueryHas : Text → Option Text → Type 0
QueryHas token none = ⊥
QueryHas token (some query) = Among (token_pair token) (split b'&' query)

header_allows_iff :
    (token : Text) (h : Option (Option Text)) → (header_allows token h ≡ true) ↔ HeaderHas token h
unfolding header_allows
header_allows_iff token none = ground arith
header_allows_iff token (some none) = ground arith
header_allows_iff token (some (some value)) =
    elim (Option-cases (strip_prefix (bytes "Bearer ") value)) [
      | inl e ↦
          rw e (
            ground (arith, text_eq_iff value token, strip_prefix_iff (bytes "Bearer ") value token))
      | inr (t, e) ↦ rw e (
          ground (
            arith,
            text_eq_iff value token,
            text_eq_iff t token,
            strip_prefix_iff (bytes "Bearer ") value token,
            strip_prefix_iff (bytes "Bearer ") value t,
          ))
    ]

key-Without : Without b'=' (bytes "access_token")
key-Without = omega arith

pair_allows_iff : (token pair : Text) → (pair_allows token pair ≡ true) ↔ (pair ≡ token_pair token)
unfolding pair_allows
pair_allows_iff token pair = elim (Option-cases (split_once b'=' pair)) [
  | inl e ↦
      rw (e, pair_allows)
        (
          ground arith,
          λ p.
              cc (
                ap (split_once b'=') p,
                split_once_of b'=' (bytes "access_token") token key-Without,
              ),
        )
  | inr ((key, val), e) ↦
      rw (e, pair_allows)
        (
          (λ h. ground (
            arith,
            text_eq_iff key (bytes "access_token"),
            text_eq_iff val token,
            split_once-eq b'=' pair key val e,
          )),
          (λ p. ground (
            arith,
            text_eq_iff key (bytes "access_token"),
            text_eq_iff val token,
            ap (split_once b'=') p,
            split_once_of b'=' (bytes "access_token") token key-Without,
          )),
        )
]

any-pair_allows_iff :
    (token : Text) (pairs : List Text)
    → (any (pair_allows token) pairs ≡ true) ↔ Among (token_pair token) pairs
any-pair_allows_iff token [] = ground arith
any-pair_allows_iff token (p ∷ pairs) =
    ground (arith, pair_allows_iff token p, any-pair_allows_iff token pairs)

query_allows_iff :
    (token : Text) (q : Option Text) → (query_allows token q ≡ true) ↔ QueryHas token q
unfolding query_allows
query_allows_iff token none = ground arith
query_allows_iff token (some q) = any-pair_allows_iff token (split b'&' q)

is_empty_iff : (t : Text) → (is_empty t ≡ true) ↔ (t ≡ [])
is_empty_iff [] = ground arith
is_empty_iff (x ∷ t) = ground arith

-- A request passes exactly if no token is configured, or the header is the token, with or without
-- `Bearer ` in front of it, or one of the pieces between the `&` of the query is
-- `access_token=` and the token. Every other request gets 401.
pub check_token-run_next_iff :
    (token : Text) (request : Request)
    → (check_token token request ≡ run_next)
      ↔ ((token ≡ []) ⊎ (HeaderHas token request.header_value ⊎ QueryHas token request.query))
unfolding check_token
check_token-run_next_iff token request = ground (
  arith,
  is_empty_iff token,
  header_allows_iff token request.header_value,
  query_allows_iff token request.query,
)

-- A query that a client puts together from parts without `&`, the token's pair among them, passes.
pub check_token-join :
    (token : Text) (h : Option (Option Text)) (p : Text) (ps : List Text)
    → All (Without b'&') (p ∷ ps)
    → Among (token_pair token) (p ∷ ps)
    → check_token token (record { header_value = h; query = some (join b'&' (p ∷ ps)) }) ≡ run_next
check_token-join token h p ps w a =
    (check_token-run_next_iff token _).1 (inr (inr (rw (split-join b'&' p ps w) a)))
