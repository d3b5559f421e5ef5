-- ===== src/Storage/Queries.antt =====
-- crates/ferroq-gateway/src/storage.rs: the texts of the statements that `query` sends.
use Prim.Native.Char.{code}
use Prim.Native.String.{◌++◌ as str_append}
use ferroq.Prelude.{
  ℕ, ◌+◌, ◌≤◌, ◌<◌, String, Option, none, some, List, [], ◌∷◌, ◌≡◌, is_some, nat_eq, if◌then◌else◌,
}
use ferroq.Prelude.Decimal.{to_string}
use ferroq.Storage.{Bind, MessageQuery}

-- The number of places `?` in a text.
abbrev pub places : String → ℕ
places String.[] = 0
places (String.◌∷◌ a s) = (if nat_eq (code a) b'?' then 1 else 0) + places s

-- The number of rows that a query asks for: the number given, or 50, but 500 at most.
abbrev pub IsPage : Option ℕ → ℕ → Type 0
IsPage limit n =
    (n ≤ 500)
    × (limit ≡ none → n ≡ 50)
    × ((m : ℕ) → limit ≡ some m → m ≤ 500 → n ≡ m)
    × ((m : ℕ) → limit ≡ some m → 500 < m → n ≡ 500)

-- The statement ends with a LIMIT of so many rows, behind so many.
abbrev pub EndsWithPage : String → ℕ → ℕ → Type 0
EndsWithPage statement n offset =
    (head : String) × (statement
      ≡ str_append head (
          str_append "LIMIT "
            (str_append (to_string n) (str_append " OFFSET " (to_string offset)))))

abbrev order_text : String
order_text = "\n                 ORDER BY time DESC\n                 "

-- Two queries that filter by the same fields, with the same page.
pub record SameShape {T : Type 0} (q r : MessageQuery T) : Type 0 where
  pub self_id : is_some q.self_id ≡ is_some r.self_id
  pub group_id : is_some q.group_id ≡ is_some r.group_id
  pub user_id : is_some q.user_id ≡ is_some r.user_id
  pub message_type : is_some q.message_type ≡ is_some r.message_type
  pub keyword : is_some q.keyword ≡ is_some r.keyword
  pub limit : q.limit ≡ r.limit
  pub offset : q.offset ≡ r.offset
  pub after : is_some q.after ≡ is_some r.after
  pub before : is_some q.before ≡ is_some r.before

-- The list of conditions has a place for each value.
abbrev pub AllOne : List (String × Bind) → Type 0
AllOne [] = Unit
AllOne (c ∷ cs) = (places c.0 ≡ 1) × AllOne cs
