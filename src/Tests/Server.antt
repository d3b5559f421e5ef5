-- ===== src/Tests/Server.antt =====
-- crates/ferroq-gateway/src/server/onebot_v11.rs at concrete inputs.
use ferroq.Prelude.{
  ◌↔◌, ◌++◌, List, ℕ, ◌≤◌, ◌≡◌, refl, ◌⊎◌, String, true, false, Option, none, some, [], ◌∷◌, length,
  is_empty, get_elem?, All,
}
use ferroq.Prelude.Int.{pos}
use ferroq.Core.Api.{ApiRequest}
use ferroq.Core.Adapter.{BackendAdapter}
use ferroq.Middleware.Text.{Text, bytes}
use ferroq.Middleware.Auth.{access_token}
use ferroq.Router
use ferroq.Router.Valid.{new-IsValid, register-IsValid}
use ferroq.Stats
use ferroq.Server.{ServerState, unauthorized, check_access_token, handle_http_api}
use ferroq.Server.Http.{Answered, request_of, handle_http_api_lem, check_access_token-true_iff}
use ferroq.Core.Config.{WsReverseTarget}
use ferroq.Server.Reverse.{Handshake, Meets, reverse_ws_task}
use ferroq.Server.Reverse.Waits.{expected, reverse_ws_task-expected}
use ferroq.Server.Connection.{
  Connection, routing, open_connection, receive_request, finish_route, send_reply, push_event,
}
use ferroq.Server.Connection.Ledger.{Once, TextOf}
use ferroq.Server.Connection.Replies.{
  done, next, request_received, route_finished, reply_sent, event_pushed, Run-replies,
}
use ferroq.Tests.Data.{demo, bot, asking, joined}

abbrev a : BackendAdapter demo ℕ
a = bot "a" (some (pos 10)) true

abbrev state : ServerState demo ℕ
state = record {
  router = Router.register Router.new a 0;
  shared_config = record { token = bytes "secret" };
  stats = Stats.new;
}

abbrev read_text : Text → Option String
read_text body = none

not_empty : is_empty state.router.adapters ≡ false
unfolding Router.register Router.new
not_empty = refl

handle_http_api_lem_example :
    ((check_access_token (bytes "secret") none (some (bytes "secret")) ≡ false)
      × (handle_http_api {F = demo} "null" read_text state "send_msg"
            (some (bytes "secret"))
            none
            []
            3
          ≡ (unauthorized, state, 3)))
    ⊎ ((check_access_token (bytes "secret") none (some (bytes "secret")) ≡ true)
        × ((x : BackendAdapter demo ℕ) × (get_elem? state.router.adapters
                (Router.target state.router none)
              ≡ some x)
            × Answered {F = demo} "null" state
                (x.info 3).name
                (x.call_api (request_of {F = demo} "null" read_text "send_msg" []) 3)
                (handle_http_api {F = demo} "null" read_text state "send_msg"
                  (some (bytes "secret"))
                  none
                  []
                  3)))
unfolding access_token
handle_http_api_lem_example =
    handle_http_api_lem "null" read_text state "send_msg" (some (bytes "secret")) none [] 3
      (register-IsValid Router.new a 0 new-IsValid) not_empty

abbrev asked : ℕ → ApiRequest demo
asked n = asking (some (pos 10))

abbrev opened : Connection demo × ServerState demo ℕ
opened = open_connection 64 1 state

abbrev after_event : Connection demo × ServerState demo ℕ
after_event = push_event joined opened

abbrev taken : Connection demo
taken = record after_event.0 { available = 0; received = 1; tasks = (0, routing (asked 0)) ∷ [] }

takes : receive_request {F = demo} "null" (asked 0) after_event ≡ some (taken, after_event.1)
unfolding receive_request open_connection push_event
takes = refl

received_none : after_event.0.received ≡ 0
unfolding open_connection push_event
received_none = refl

Run-replies_example :
    (length (send_reply 0 (finish_route {F = demo} "null" 0 (taken, after_event.1) 5).0).tasks ≤ 1)
    × (length (send_reply 0 (finish_route {F = demo} "null" 0 (taken, after_event.1) 5).0).queue
        ≤ (send_reply 0 (finish_route {F = demo} "null" 0 (taken, after_event.1) 5).0).capacity)
    × Once (send_reply 0 (finish_route {F = demo} "null" 0 (taken, after_event.1) 5).0)
    × All
        (TextOf asked)
        (send_reply 0 (finish_route {F = demo} "null" 0 (taken, after_event.1) 5).0).sent
Run-replies_example =
    Run-replies "null" asked 64 1 state
      (finish_route {F = demo} "null" 0 (taken, after_event.1) 5).1 5
      (finish_route {F = demo} "null" 0 (taken, after_event.1) 5).2
      (send_reply 0 (finish_route {F = demo} "null" 0 (taken, after_event.1) 5).0)
      (next
        (next
          (next (next done (event_pushed joined)) (request_received (taken, after_event.1) takes))
          (route_finished 0))
        (reply_sent 0))

-- A library of WebSockets whose request is its URL and header, and a target with no token.
abbrev handshake : Handshake
handshake = record {
  Request = String × String;
  into_client_request = λ url. some (url, "");
  authorize = λ request header. some (request.0, header);
}

abbrev framework : WsReverseTarget
framework = record { url = "ws://framework"; access_token = "" }

-- Refused, refused, and accepted after the token was changed.
abbrev meetings : List (Meets handshake)
meetings =
    record { token = "a"; accepts = λ request. false }
    ∷ record { token = "a"; accepts = λ request. false }
    ∷ record { token = "b"; accepts = λ request. true }
    ∷ []

reverse_ws_task-expected_example :
    reverse_ws_task handshake framework meetings ≡ expected handshake framework 0 meetings
reverse_ws_task-expected_example = reverse_ws_task-expected handshake framework meetings

check_access_token-true_iff_example :
    (check_access_token (bytes "secret") (some (some (bytes "Token secret"))) none ≡ true) ↔ (
      (bytes "secret" ≡ [])
      ⊎ ((some (some (bytes "Token secret")) ≡ some (some (bytes "Bearer " ++ bytes "secret")))
          ⊎ ((some (some (bytes "Token secret")) ≡ some (some (bytes "Token " ++ bytes "secret")))
              ⊎ (◌≡◌ {A = Option Text} none (some (bytes "secret"))))))
check_access_token-true_iff_example =
    check_access_token-true_iff (bytes "secret") (some (some (bytes "Token secret"))) none
