-- ===== src/Storage.antt =====
-- crates/ferroq-gateway/src/storage.rs: the message store. SQLite is a parameter: statements with
-- their bound values, over a world `W` that stands for the database.
pub mod Queries
use Prim.Native.String.{◌++◌ as str_append}
use ferroq.Prelude.{ℕ, min, String, Option, none, some, List, [], ◌∷◌, map, ◌⊎◌, inl, inr}
use ferroq.Prelude.Int.{ℤ}
use ferroq.Prelude.Str.{concat}
use ferroq.Prelude.Decimal.{to_string}
use ferroq.Core.External.{External}
use ferroq.Core.Error.{GatewayError, storage, Result, ok, err, ◌>>=◌}
use ferroq.Core.Json.{◌and_then◌, ◌unwrap_or◌, map_or_none, filter_map}
use ferroq.Core.Json.Values.{message_type_text, or_else}
use ferroq.Core.Event.{MessageEvent}

-- A bound value (`ToSql`).
pub data Bind : Type 0 where
  int : ℤ → Bind
  str : String → Bind
  null : Bind

-- The columns of a row as SQLite gives them, the time as its text.
pub record RawRow : Type 0 where
  pub id : ℤ
  pub time : String
  pub self_id : ℤ
  pub message_type : String
  pub message_id : ℤ
  pub user_id : ℤ
  pub group_id : Option ℤ
  pub raw_message : String
  pub sender_nickname : String
  pub raw_json : String

-- What the store calls of `rusqlite`, an error given by its text. A row that cannot be read is
-- `none`.
pub record Database (W : Type 0) : Type 0 where
  pub execute : String → List Bind → W → (String ⊎ ℕ) × W
  pub query_row : String → List Bind → W → String ⊎ ℕ
  pub prepare : String → W → String ⊎ Unit {0}
  pub query_map : String → List Bind → W → String ⊎ List (Option RawRow)

pub record StoredMessage (T : Type 0) : Type 0 where
  pub id : ℤ
  pub time : T
  pub self_id : ℤ
  pub message_type : String
  pub message_id : ℤ
  pub user_id : ℤ
  pub group_id : Option ℤ
  pub raw_message : String
  pub sender_nickname : String
  pub raw_json : String

pub record MessageQuery (T : Type 0) : Type 0 where
  pub self_id : Option ℤ
  pub group_id : Option ℤ
  pub user_id : Option ℤ
  pub message_type : Option String
  pub keyword : Option String
  pub limit : Option ℕ
  pub offset : Option ℕ
  pub after : Option T
  pub before : Option T

pub record MessageQueryResult (T : Type 0) : Type 0 where
  pub total : ℕ
  pub messages : List (StoredMessage T)

-- `if let Some(v) = o { conditions.push(condition); bind_values.push(v) }`
unfoldable pub condition : String → Option Bind → List (String × Bind) → List (String × Bind)
condition text none rest = rest
condition text (some v) rest = (text, v) ∷ rest

-- `conditions.join(" AND ")`, behind its first item.
abbrev pub and_more : List String → String
and_more [] = ""
and_more (c ∷ cs) = str_append " AND " (str_append c (and_more cs))

abbrev pub where_clause : List String → String
where_clause [] = ""
where_clause (c ∷ cs) = str_append "WHERE " (str_append c (and_more cs))

abbrev pub select_text : String
select_text =
    "SELECT id, time, self_id, message_type, message_id, user_id, group_id,\n                        raw_message, sender_nickname, raw_json\n                 FROM messages "

-- `unwrap_or(50).min(500)`
unfoldable pub page_limit : Option ℕ → ℕ
page_limit limit = min (limit unwrap_or 50) 500

unfoldable pub page_sql : List String → Option ℕ → Option ℕ → String
unfolding page_limit to_string
page_sql texts limit offset = concat (
    select_text
    ∷ where_clause texts
    ∷ "\n                 ORDER BY time DESC\n                 LIMIT "
    ∷ to_string (page_limit limit)
    ∷ " OFFSET "
    ∷ to_string (offset unwrap_or 0)
    ∷ [])

-- `format!("%{kw}%")`
abbrev like_pattern : String → Bind
like_pattern keyword = str (str_append "%" (str_append keyword "%"))

module _ {T : Type 0} (to_rfc3339 : T → String) where
  abbrev time_bind : T → Bind
  time_bind t = str (to_rfc3339 t)

  unfoldable pub conditions : MessageQuery T → List (String × Bind)
  unfolding condition
  conditions q = condition "self_id = ?" (map_or_none int q.self_id) (
      condition "group_id = ?" (map_or_none int q.group_id) (
        condition "user_id = ?" (map_or_none int q.user_id) (
          condition "message_type = ?" (map_or_none str q.message_type) (
            condition "raw_message LIKE ?" (map_or_none like_pattern q.keyword) (
              condition "time >= ?" (map_or_none time_bind q.after)
                (condition "time <= ?" (map_or_none time_bind q.before) []))))))

  abbrev pub condition_texts : MessageQuery T → List String
  unfolding conditions
  condition_texts q = map (λ c. c.0) (conditions q)

  abbrev pub bind_values : MessageQuery T → List Bind
  unfolding conditions
  bind_values q = map (λ c. c.1) (conditions q)

  unfoldable pub count_sql : MessageQuery T → String
  unfolding condition_texts
  count_sql q = str_append "SELECT COUNT(*) FROM messages " (where_clause (condition_texts q))

  unfoldable pub select_sql : MessageQuery T → String
  unfolding condition_texts page_sql
  select_sql q = page_sql (condition_texts q) q.limit q.offset

-- The row as it is returned. `parse_fraction` and `parse_plain` are the two formats of a time.
unfoldable pub stored_message :
    {T : Type 0} → (String → Option T) → (String → Option T) → T → RawRow → StoredMessage T
stored_message parse_fraction parse_plain now row = record {
  id = row.id;
  time = or_else (parse_fraction row.time) (parse_plain row.time) unwrap_or now;
  self_id = row.self_id;
  message_type = row.message_type;
  message_id = row.message_id;
  user_id = row.user_id;
  group_id = row.group_id;
  raw_message = row.raw_message;
  sender_nickname = row.sender_nickname;
  raw_json = row.raw_json;
}

-- `map_err(|e| GatewayError::Storage(format!("… failed: {e}")))`, over the text of the error.
abbrev pub failed {ℓ} : {A : Type ℓ} → String → String ⊎ A → Result A
failed what (inl e) = err (storage (str_append what (str_append " failed: " e)))
failed what (inr a) = ok a

abbrev pub insert_sql : String
insert_sql =
    "INSERT INTO messages (time, self_id, message_type, message_id, user_id,\n                 group_id, raw_message, sender_nickname, raw_json)\n                 VALUES (?1, ?2, ?3, ?4, ?5, ?6, ?7, ?8, ?9)"

-- `raw_json` is the text of the event.
unfoldable pub insert_values :
    {F : External} → (F.DateTime → String) → (MessageEvent F → String) → MessageEvent F → List Bind
unfolding message_type_text
insert_values to_rfc3339 raw_json event =
    str (to_rfc3339 event.time)
    ∷ int event.self_id
    ∷ str (message_type_text event.message_type)
    ∷ int event.message_id
    ∷ int event.user_id
    ∷ (map_or_none int event.group_id unwrap_or null)
    ∷ str event.raw_message
    ∷ str event.sender.nickname
    ∷ str (raw_json event)
    ∷ []

module _ {W : Type 0} (db : Database W) where
  unfoldable pub insert :
      {F : External}
      → (F.DateTime → String)
      → (MessageEvent F → String)
      → MessageEvent F
      → W
      → Result (Unit {0}) × W
  unfolding insert_values
  insert to_rfc3339 raw_json event w =
      let (r, w') = db.execute insert_sql (insert_values to_rfc3339 raw_json event) w in
      (elim (failed "insert" r) [ ok n ↦ ok tt | err e ↦ err e ], w')

  unfoldable pub query :
      {T : Type 0}
      → (T → String)
      → (String → Option T)
      → (String → Option T)
      → T
      → MessageQuery T
      → W
      → Result (MessageQueryResult T)
  unfolding count_sql select_sql bind_values stored_message
  query to_rfc3339 parse_fraction parse_plain now q w =
      let binds = bind_values to_rfc3339 q in
      failed "count query" (db.query_row (count_sql to_rfc3339 q) binds w) >>= λ total.
      failed "prepare" (db.prepare (select_sql to_rfc3339 q) w) >>= λ _.
      failed "query" (db.query_map (select_sql to_rfc3339 q) binds w) >>= λ rows. ok (record {
        total = total;
        messages = filter_map (map_or_none (stored_message parse_fraction parse_plain now)) rows;
      })

  unfoldable pub cleanup : ℕ → W → Result ℕ × W
  unfolding to_string
  cleanup max_days w =
      let days = str (str_append "-" (str_append (to_string max_days) " days")) in
      let (r, w') =
        db.execute "DELETE FROM messages WHERE time < datetime('now', ?1)" (days ∷ []) w in
      (failed "cleanup" r, w')

  unfoldable pub count : W → Result ℕ
  count w = failed "count" (db.query_row "SELECT COUNT(*) FROM messages" [] w)
