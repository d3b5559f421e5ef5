-- ===== src/Tests/Adapters.antt =====
-- crates/ferroq-gateway/src/adapter_manager.rs and adapter/failover.rs at concrete inputs.
use ferroq.Prelude.{ℕ, ◌≡◌, ◌≢◌, refl, String, true, false, none, some, eq_String, List, [], ◌∷◌}
use ferroq.Prelude.Int.{pos}
use ferroq.Prelude.HashMap
use ferroq.Core.Error.{connection, ok, err}
use ferroq.Core.Adapter.{BackendAdapter}
use ferroq.Router
use ferroq.Router.Unregister.{erase_first}
use ferroq.AdapterManager.{
  AdapterManager, new, add_adapter, remove_adapter, reconnect_adapter, create, prepare, has,
  add_connected, already_exists, insert_live,
}
use ferroq.AdapterManager.Valid.{
  IsValid, add, remove, reconnect, here, next, handle_of, Reach-IsValid,
}
use ferroq.AdapterManager.Changes.{SameBut, remove_adapter_lem}
use ferroq.Management.Accounts.Replies.{
  AccountRequest, add_request, remove_request, reconnect_request, replies, replies-answers, answers,
}
use ferroq.AdapterManager.Race.{add_connected_twice}
use ferroq.Failover.{FailoverAdapter, call_api, is_connection_error}
use ferroq.Tests.Data.{demo, bot, asking, made, refused, local}

abbrev empty : AdapterManager demo ℕ
empty = new Router.new

abbrev one : AdapterManager demo ℕ
one = (add_adapter made refused empty "one" local 0).1

added : (add_adapter made refused empty "one" local 0).0 ≡ ok tt
unfolding add_adapter prepare create new add_connected HashMap.contains_key
added = refl

taken : (add_adapter made refused one "one" local 0).0 ≡ err (already_exists "one")
unfolding add_adapter prepare create new add_connected insert_live HashMap.contains_key
    HashMap.insert
taken = refl

there : has one "one" ≡ true
unfolding has add_adapter prepare create new add_connected insert_live HashMap.contains_key
    HashMap.insert
there = refl

Reach-IsValid_example : IsValid (reconnect_adapter (remove_adapter one "two" 1).1 "one" 2).1
Reach-IsValid_example =
    Reach-IsValid Router.new (reconnect_adapter (remove_adapter one "two" 1).1 "one" 2).1 (
      next (next (next here (add made refused "one" local 0)) (remove "two" 1)) (reconnect "one" 2))

remove_adapter_lem_example :
    ((remove_adapter one "one" 5).0 ≡ ok tt)
    × (has (remove_adapter one "one" 5).1 "one" ≡ false)
    × SameBut "one" one.live (remove_adapter one "one" 5).1.live
    × (Router.list_names (remove_adapter one "one" 5).1.router (remove_adapter one "one" 5).2
        ≡ erase_first "one" (Router.list_names one.router (remove_adapter one "one" 5).2))
remove_adapter_lem_example = remove_adapter_lem one "one" 5 there

abbrev bot_one : BackendAdapter demo ℕ
bot_one = bot "one" (some (pos 10)) true

prepared : prepare made refused empty "one" local ≡ ok bot_one
unfolding prepare create new HashMap.contains_key
prepared = refl

add_connected_twice_example :
    ((add_connected (add_connected empty "one" bot_one 0).0 "one" bot_one 1).0.running
        empty.next_handle
      ≡ true)
    × ((n : String)
        → handle_of (add_connected (add_connected empty "one" bot_one 0).0 "one" bot_one 1).0.live n
          ≢ some empty.next_handle)
add_connected_twice_example =
    add_connected_twice made refused empty "one" local local bot_one bot_one 0 1
      (Reach-IsValid Router.new empty here) prepared prepared

abbrev up : BackendAdapter demo ℕ
up = bot "up" (some (pos 10)) true

abbrev down : BackendAdapter demo ℕ
down = bot "down" none false

abbrev pair : FailoverAdapter demo ℕ
pair = record { name = "pair"; primary = down; fallback = down }

both_down : (call_api pair (asking none) 0).0 ≡ err (connection "down")
unfolding call_api is_connection_error
both_down = refl

abbrev account_requests : List AccountRequest
account_requests =
    add_request "two" local
    ∷ add_request "one" local
    ∷ remove_request "two"
    ∷ reconnect_request "two"
    ∷ []

replies-answers_example :
    replies made refused account_requests (some one) 0
    ≡ answers made refused (has one) account_requests
replies-answers_example = replies-answers made refused account_requests one 0
