-- ===== src/Tests/Lagrange.antt =====
-- crates/ferroq-gateway/src/adapter/lagrange.rs at concrete inputs.
use ferroq.Prelude.{
  ℕ, ◌+◌, ◌^◌, ◌<◌, ◌≡◌, ◌≢◌, refl, String, true, false, none, some, [], ◌∷◌, ◌⊎◌, inr, eq_ℕ,
  eq_String, ◌==◌, if◌then◌else◌, arith,
}
use ferroq.Prelude.Int.{pos}
use ferroq.Prelude.HashMap
use ferroq.Core.Error.{Result, ok, err}
use ferroq.Core.Adapter.{is_connected}
use ferroq.Core.Api.{ApiResponse}
use ferroq.Lagrange.{
  LagrangeAdapter, World, retrying, begin_connect, end_connect, spawn_ws_tasks, disconnect,
  new_inner, monitor_attempt, send,
}
use ferroq.Lagrange.Call.{
  Writer, Waiting, writer_closed, begin_call, next_echo, start, register_call, send_request,
  poll_call,
}
use ferroq.Lagrange.Reader.{
  Source, read, text, close, handle_text_message, handle_api_response, resolve, echo_text,
  api_response,
}
use ferroq.Lagrange.Steps.{
  fresh, Run, done, next, step, connect_starts, connect_ends, message_read, Alone, writer_ends,
}
use ferroq.Lagrange.Steps.Cases.{call_of}
use ferroq.Lagrange.Steps.Echo.{echo_of}
use ferroq.Lagrange.Steps.Answers.{answer_lem}
use ferroq.Lagrange.Steps.Ends.{disconnect-poll_call, begin_call-err, Pending}
use ferroq.Lagrange.Steps.Lost.{once_only}
use ferroq.Tests.Data.{demo, asking}

-- A message is the text of an echo, which has a status and is its own echo.
abbrev echoes : Source demo
echoes = record {
  json = record {
    get = λ v key. if key == "status" then some "ok" else if key == "echo" then some v else none;
    as_i64 = λ v. none;
    as_u64 = λ v. none;
    as_str = λ v. some v;
    as_array = λ v. none;
    number_text = λ v. none;
    null = "null";
  };
  from_str = λ body. inr body;
  timestamp_opt = λ t. some t;
  now = pos 0;
  new_id = 0;
}

abbrev plain : Writer demo
plain = record {
  string = λ s. s;
  request_json = λ request. inr request.action;
  empty_object = "{}";
}

abbrev lagrange : LagrangeAdapter
lagrange = record {
  name = "bot";
  backend_type = "lagrange";
  url = "ws://localhost:8081";
  access_token = "";
  reconnect_interval = 5;
  max_reconnect_interval = 60;
  connect_timeout = 5;
  api_timeout = 30;
  health_check_interval = 30;
}

abbrev start_world : World demo
start_world = fresh (λ tx. true)

abbrev online : World demo
online = (end_connect (ok tt) (begin_connect 0 start_world)).1

abbrev online_run : Run echoes plain lagrange start_world online
online_run = next (next done (connect_starts 0)) (connect_ends (ok tt))

abbrev first_call : Waiting
first_call = record { id = 1; echo = "1"; action = "send_msg" }

abbrev asked : World demo
asked = (begin_call plain lagrange (asking none) online).1

abbrev answered : World demo
answered = read echoes 0 (text "1") asked

abbrev answer : ApiResponse demo
answer = api_response echoes "1"

starts : (begin_call plain lagrange (asking none) online).0 ≡ ok first_call
unfolding begin_call next_echo start register_call send_request send end_connect begin_connect
    spawn_ws_tasks new_inner
starts = refl

reads : asked.readers 0 ≡ true
unfolding begin_call next_echo start register_call send_request send end_connect begin_connect
    spawn_ws_tasks new_inner
reads = refl

polls : (poll_call lagrange first_call false answered).0 ≡ some (ok answer)
unfolding begin_call next_echo start register_call send_request send end_connect begin_connect
    spawn_ws_tasks new_inner poll_call read handle_text_message handle_api_response resolve
    echo_text api_response HashMap.insert HashMap.get HashMap.remove
polls = refl

answer_lem_example :
    (echo_text echoes.json answer.echo ≡ some "1")
    × ("1" ≡ echo_of 1)
    × ((n : ℕ) → n ≢ 1 → n < 1 + 2 ^ 64 → 1 < n + 2 ^ 64 → "1" ≢ echo_of n)
answer_lem_example =
    answer_lem echoes plain lagrange (λ tx. true) online answered (asking none) first_call false
      answer online_run starts (next done (step (message_read 0 (text "1") reads))) polls

asked_calls : asked.next_call ≡ 2
unfolding begin_call next_echo start register_call send_request send end_connect begin_connect
    spawn_ws_tasks new_inner
asked_calls = refl

disconnect-poll_call_example :
    (r : Result (ApiResponse demo)) × ((poll_call lagrange first_call false (disconnect asked).1).0
      ≡ some r)
disconnect-poll_call_example =
    disconnect-poll_call echoes plain lagrange asked (disconnect asked).1 first_call false
      (omega (arith, asked_calls)) done

-- A connection whose writer has ended.
abbrev shut : World demo
shut = record online { writers = λ n. false }

refuses : (begin_call plain lagrange (asking none) shut).0 ≡ err writer_closed
unfolding begin_call next_echo start register_call send_request send end_connect begin_connect
    spawn_ws_tasks new_inner
refuses = refl

nobody_waits : HashMap.get shut.inner.pending_calls (call_of shut (asking none)).echo ≡ none
unfolding end_connect begin_connect spawn_ws_tasks new_inner HashMap.get
nobody_waits = refl

begin_call-err_example :
    ((writer_closed ≡ writer_closed)
      × (HashMap.get
            (begin_call plain lagrange (asking none) shut).1.inner.pending_calls
            (call_of shut (asking none)).echo
          ≡ some shut.next_call)
      × ((echo : String)
          → (call_of shut (asking none)).echo ≢ echo
          → Pending plain lagrange shut (begin_call plain lagrange (asking none) shut).1 echo))
    ⊎ ((writer_closed ≢ writer_closed)
        × ((echo : String)
            → Pending plain lagrange shut (begin_call plain lagrange (asking none) shut).1 echo))
begin_call-err_example =
    begin_call-err plain lagrange (asking none) shut writer_closed nobody_waits refuses

-- The connection was lost, and its monitor is before the first attempt.
abbrev waiting : World demo
waiting = record online { monitors = (0, retrying 0) ∷ [] }

abbrev lost_again : World demo
lost_again = read echoes 1 close (monitor_attempt 0 0 true waiting)

once_only_example :
    is_connected
      (record lost_again {
        writers = λ n. if n == 1 then false else lost_again.writers n;
      }).inner.state
    ≡ false
once_only_example =
    once_only echoes plain lagrange waiting
      (record lost_again { writers = λ n. if n == 1 then false else lost_again.writers n }) 0 0 1
      refl (Alone.next Alone.done (writer_ends 1))
