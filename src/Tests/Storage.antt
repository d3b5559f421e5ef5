-- ===== src/Tests/Storage.antt =====
-- crates/ferroq-gateway/src/storage.rs at concrete queries.
use ferroq.Prelude.{
  ℕ, String, none, some, ◌≡◌, sym, ap, length, List, [], ◌∷◌, ◌++◌, inl, inr, is_empty,
  if◌then◌else◌, arith,
}
use ferroq.Prelude.Int.{ℤ, pos}
use ferroq.Core.Event.{MessageEvent, message}
use ferroq.Stats
use ferroq.Stats.{RuntimeStats}
use ferroq.Runtime.Persist.{Received, received, lagged, Stored, persist, persist-Stored}
use ferroq.Tests.Data.{demo, hello}
use ferroq.Storage.{Bind, Database, insert_sql, MessageQuery}

abbrev as_text : ℤ → String
as_text t = "2024-01-01T00:00:00+00:00"

-- A search in a group for a word, which may be anything.
abbrev search_for : String → MessageQuery ℤ
search_for keyword = record {
  self_id = none;
  group_id = some (pos 99);
  user_id = none;
  message_type = none;
  keyword = some keyword;
  limit = some 1000;
  offset = none;
  after = some (pos 100);
  before = none;
}

-- A database that is full after one row.
abbrev full_after_one : Database (List (List Bind))
full_after_one = record {
  execute = λ sql binds w. if is_empty w then (inr 1, binds ∷ []) else (inl "database is full", w);
  query_row = λ sql binds w. inr (length w);
  prepare = λ sql w. inr tt;
  query_map = λ sql binds w. inr [];
}

one_row_appended :
    (binds : List Bind) (w w' : List (List Bind)) (n : ℕ)
    → full_after_one.execute insert_sql binds w ≡ (inr n, w')
    → w' ≡ w ++ binds ∷ []
one_row_appended binds [] w' n e = sym (ap (λ p. p.1) e)
one_row_appended binds (row ∷ w) w' n e = cc

full_unchanged :
    (binds : List Bind) (w w' : List (List Bind)) (e : String)
    → full_after_one.execute insert_sql binds w ≡ (inl e, w')
    → w' ≡ w
full_unchanged binds [] w' e h = cc
full_unchanged binds (row ∷ w) w' e h = sym (ap (λ p. p.1) h)

abbrev hello_json : MessageEvent demo → String
hello_json event = "{}"

abbrev from_bus : List (Received demo)
from_bus = received (message (hello 1)) ∷ lagged 5 ∷ received (message (hello 2)) ∷ []

abbrev seven_stored : RuntimeStats
seven_stored = record Stats.new { messages_stored = 7 }

persist-Stored_example :
    Stored full_after_one as_text hello_json
      (λ w. w)
      []
      from_bus
      7
      0
      (persist full_after_one as_text hello_json from_bus seven_stored 0 [])
persist-Stored_example =
    persist-Stored full_after_one as_text hello_json (λ w. w) from_bus seven_stored 0 []
      (record { appended = one_row_appended; unchanged = full_unchanged }) (omega arith)
      (omega arith)
