-- ===== src/Tests/Official.antt =====
-- crates/ferroq-gateway/src/adapter/official.rs at concrete inputs.
use ferroq.Prelude.{
  if◌then◌else◌, ℕ, suc, ◌≡◌, refl, String, true, false, none, some, inl, ◌==◌, eq_String,
}
use ferroq.Core.Json.{JsonValue}
use ferroq.Core.Adapter.{connected}
use ferroq.Failover
use ferroq.Official.{
  direct_action, Inner, OfficialAdapter, Client, replied, candidate_modes, discover_and_call,
  call_api, as_adapter,
}
use ferroq.Official.Calls.{Tried, discover_and_call_lem}
use ferroq.Official.Fallback.{no_failover}
use ferroq.Tests.Data.{demo, asking}

abbrev texts : JsonValue String
texts = record {
  get = λ v key. none;
  as_i64 = λ v. none;
  as_u64 = λ v. none;
  as_str = λ v. some v;
  as_array = λ v. none;
  number_text = λ v. none;
  null = "null";
}

-- A server that knows one address; the world counts the requests.
abbrev server : Client demo ℕ
server = record {
  post = λ request w. (
    if request.url == "http://bot/send_msg"
        then replied true "200 OK" "sent"
        else replied false "404 Not Found" "",
    suc w,
  );
  request_json = λ request. request.action;
  as_response = λ body. none;
  from_str = λ body. inl body;
  empty_object = "{}";
}

abbrev remote : OfficialAdapter
remote = record {
  name = "remote";
  url = "http://bot/";
  access_token = "";
  connect_timeout = 5;
  api_timeout = 5;
}

abbrev ready : Inner
ready = record { state = connected; self_id = none; preferred_mode = some direct_action }

discover_and_call_lem_example :
    Tried texts server remote
      (asking none)
      (candidate_modes remote ready)
      ready
      7
      (discover_and_call texts server remote (asking none) (ready, 7))
discover_and_call_lem_example = discover_and_call_lem texts server remote (asking none) ready 7

no_failover_example :
    Failover.call_api
      (record {
        name = "pair";
        primary = as_adapter texts server remote;
        fallback = as_adapter texts server remote;
      })
      (asking none)
      (ready, 7)
    ≡ call_api texts server remote (asking none) (ready, 7)
no_failover_example =
    no_failover texts server remote "pair" (as_adapter texts server remote) (asking none) ready 7
      refl
