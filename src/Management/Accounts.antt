-- ===== src/Management/Accounts.antt =====
-- crates/ferroq-gateway/src/management.rs: the handlers for accounts, messages and statistics.
pub mod Replies
use Prim.Native.String.{◌++◌ as str_append}
use ferroq.Prelude.{ℕ, String, Bool, Option, none, some, List, [], ◌∷◌, map}
use ferroq.Prelude.Int.{ℤ}
use ferroq.Core.External.{External}
use ferroq.Core.Error.{Result, ok, err, error_text}
use ferroq.Core.Config.{BackendConfig}
use ferroq.Core.Adapter.{BackendAdapter, state_text}
use ferroq.Stats.{RuntimeStats, AdapterSnapshot, HealthResponse, health}
use ferroq.Storage.{Database, MessageQuery, MessageQueryResult, query}
use ferroq.AdapterManager.{AdapterManager, add_adapter, remove_adapter, reconnect_adapter}

pub record AccountEntry : Type 0 where
  pub name : String
  pub backend_type : String
  pub url : String
  pub state : String
  pub self_id : Option ℤ

unfoldable pub account_entry : AdapterSnapshot → AccountEntry
account_entry a = record {
  name = a.name;
  backend_type = a.backend_type;
  url = a.url;
  state = state_text a.state;
  self_id = a.self_id;
}

unfoldable pub handle_list_accounts : RuntimeStats → List AccountEntry
unfolding account_entry health
handle_list_accounts stats = map account_entry (health stats).adapters

abbrev pub handle_stats : RuntimeStats → HealthResponse
handle_stats stats = health stats

-- The answers: what was done, or the number and the text of a failure.
pub data AccountReply : Type 0 where
  done : String → AccountReply
  failed : ℕ → String → AccountReply

pub data MessagesReply (T : Type 0) : Type 0 where
  messages_found : MessageQueryResult T → MessagesReply T
  query_failed : ℕ → String → MessagesReply T

abbrev pub show_result : {T : Type 0} → Result (MessageQueryResult T) → MessagesReply T
unfolding error_text
show_result (ok result) = messages_found result
show_result (err e) = query_failed 2 (error_text e)

-- The store, if there is one, is the database it queries.
unfoldable pub handle_query_messages :
    {W T : Type 0}
    → (T → String)
    → (String → Option T)
    → (String → Option T)
    → T
    → Option (Database W)
    → MessageQuery T
    → W
    → MessagesReply T
unfolding query
handle_query_messages to_rfc3339 parse_fraction parse_plain now none q w =
    query_failed 1 "message storage is not enabled"
handle_query_messages to_rfc3339 parse_fraction parse_plain now (some db) q w =
    show_result (query db to_rfc3339 parse_fraction parse_plain now q w)

-- `format!("adapter '{}' added", name)` and the like
abbrev pub done_text : String → String → AccountReply
done_text what name = done (str_append "adapter '" (str_append name (str_append "' " what)))

abbrev pub no_manager : AccountReply
no_manager = failed 1 "adapter manager is not available"

module _ {F : External} {W : Type 0} where
  -- What is answered to the result of the manager.
  abbrev pub reply_to :
      String
      → String
      → Result (Unit {0}) × AdapterManager F W × W
      → AccountReply × Option (AdapterManager F W) × W
  unfolding error_text
  reply_to what name (ok _, m, w) = (done_text what name, some m, w)
  reply_to what name (err e, m, w) = (failed 2 (error_text e), some m, w)

  unfoldable pub handle_remove_adapter :
      Option (AdapterManager F W) → String → W → AccountReply × Option (AdapterManager F W) × W
  unfolding remove_adapter reply_to
  handle_remove_adapter none name w = (no_manager, none, w)
  handle_remove_adapter (some m) name w = reply_to "removed" name (remove_adapter m name w)

  unfoldable pub handle_reconnect_adapter :
      Option (AdapterManager F W) → String → W → AccountReply × Option (AdapterManager F W) × W
  unfolding reconnect_adapter reply_to
  handle_reconnect_adapter none name w = (no_manager, none, w)
  handle_reconnect_adapter (some m) name w =
      reply_to "reconnected" name (reconnect_adapter m name w)

  module _ (lagrange : String → BackendConfig → BackendAdapter F W)
      (official : String → BackendConfig → Result (BackendAdapter F W)) where
    unfoldable pub handle_add_adapter :
        Option (AdapterManager F W)
        → String
        → BackendConfig
        → W
        → AccountReply × Option (AdapterManager F W) × W
    unfolding add_adapter reply_to
    handle_add_adapter none name backend w = (no_manager, none, w)
    handle_add_adapter (some m) name backend w =
        reply_to "added" name (add_adapter lagrange official m name backend w)
