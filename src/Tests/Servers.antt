-- ===== src/Tests/Servers.antt =====
-- crates/ferroq-gateway/src/server/satori.rs and onebot_v12.rs at concrete inputs.
use Prim.Native.String.{◌++◌ as str_append}
use ferroq.Prelude.{
  ℕ, ◌+◌, ◌^◌, if◌then◌else◌, ◌<◌, ◌≡◌, refl, ◌⊎◌, inl, inr, String, true, false, ◌||◌, Option,
  none, some, [], ◌∷◌, is_empty, arith,
}
use ferroq.Prelude.Int.{ℤ, pos}
use ferroq.Core.External.{External}
use ferroq.Core.Error.{ok}
use ferroq.Core.Adapter.{BackendAdapter, connected}
use ferroq.Core.Event.{Event, notice}
use ferroq.Middleware.Text.{Text, bytes}
use ferroq.Middleware.Auth.{access_token}
use ferroq.Router
use ferroq.Router.Valid.{new-IsValid, register-IsValid}
use ferroq.Stats
use ferroq.OnebotV12.{parse_v12_action, translate_v12_action, v12_self_id, translate_v11_response}
use ferroq.Server.{ServerState}
use ferroq.Server.OnebotV12.{
  V12Response, check_v12_token, run_action, handle_http_action, v12_error_response, unauthorized,
  json, as_reply,
}
use ferroq.Server.OnebotV12.Actions.{Acted, handle_http_action_lem}
use ferroq.Server.Satori.{
  SatoriState, Session, serving, open_session, take_identify, answer_identify, write_ready,
  push_signal, write_signal, identifies,
}
use ferroq.Server.Satori.Runs.{opened, then_step, identify_step, push_step, write_step, IsOrderly}
use ferroq.Server.Satori.Orderly.{Run-IsOrderly}
use ferroq.Tests.JsonTree.{Tree, string, number, tree_json, tree_build}

abbrev world : External
world = record { Value = Tree; DateTime = ℤ; Uuid = ℕ }

-- An adapter whose answers carry an echo of its own.
abbrev a : BackendAdapter world ℕ
a = record {
  info = λ w. record {
    name = "a";
    backend_type = "lagrange";
    url = "ws://localhost";
    state = connected;
    self_id = some (pos 10);
  };
  connect = λ w. (ok tt, w);
  disconnect = λ w. (ok tt, w);
  call_api = λ request w. (
    ok (record {
      status = "ok";
      retcode = pos 0;
      payload = string "sent";
      message = "";
      echo = some (string "41");
    }),
    w + 1,
  );
  health_check = λ w. (true, w);
}

abbrev router : Router.ApiRouter world ℕ
router = Router.register Router.new a 0

abbrev state : ServerState world ℕ
state = record {
  router = router;
  shared_config = record { token = bytes "secret" };
  stats = Stats.new;
}

abbrev int_like : Tree → String
int_like v = "1"

abbrev get_of : V12Response Tree → Option Tree
get_of unauthorized = none
get_of (json v) = tree_json.get v "echo"

abbrev deletion : Tree
deletion = tree_build.object (
    ("action", string "delete_message")
    ∷ ("params", tree_build.object (("message_id", string "7") ∷ []))
    ∷ ("echo", string "mine")
    ∷ [])

abbrev from_str : Text → String ⊎ Tree
from_str body = if is_empty body then inl "empty" else inr deletion

not_empty : is_empty state.router.adapters ≡ false
unfolding Router.register Router.new
not_empty = refl

handle_http_action_lem_example :
    ((check_v12_token (access_token state.shared_config) none (some (bytes "secret")) ≡ false)
      × (handle_http_action {F = world} tree_build int_like from_str state
            (some (bytes "secret"))
            none
            (bytes "{")
            3
          ≡ (unauthorized, state, 3)))
    ⊎ ((check_v12_token (access_token state.shared_config) none (some (bytes "secret")) ≡ true)
        × (((e : String) × (from_str (bytes "{") ≡ inl e)
              × (handle_http_action {F = world} tree_build int_like from_str state
                    (some (bytes "secret"))
                    none
                    (bytes "{")
                    3
                  ≡ (
                    json (
                        v12_error_response tree_build
                          (pos 10001)
                          (str_append "invalid request: " e)
                          none),
                    state,
                    3,
                  )))
            ⊎ ((raw : Tree) × (from_str (bytes "{") ≡ inr raw)
                × (r : Tree × ServerState world ℕ × ℕ) × (handle_http_action {F = world} tree_build
                      int_like from_str state
                      (some (bytes "secret"))
                      none
                      (bytes "{")
                      3
                    ≡ as_reply {F = world} tree_build int_like r)
                × Acted {F = world} tree_build int_like state raw 3 r)))
handle_http_action_lem_example =
    handle_http_action_lem {F = world} tree_build int_like from_str state (some (bytes "secret"))
      none (bytes "{") 3 (register-IsValid Router.new a 0 new-IsValid) not_empty

-- The client asks with the echo "mine" and is answered with the echo of the adapter.
foreign_echo :
    get_of
      (handle_http_action {F = world} tree_build int_like from_str state
        (some (bytes "secret"))
        none
        (bytes "{")
        3).0
    ≡ some (string "41")
unfolding handle_http_action check_v12_token access_token run_action parse_v12_action
    translate_v12_action v12_self_id Router.route_named Router.register Router.new
    translate_v11_response
foreign_echo = refl

abbrev served : SatoriState world ℕ
served = record {
  router = router;
  shared_config = record { token = bytes "secret" };
  stats = Stats.new;
  sn_counter = 0;
}

abbrev identification : Tree
identification =
    tree_build.object
      (("op", number (pos 3)) ∷ ("body", tree_build.object (("token", string "secret") ∷ [])) ∷ [])

abbrev joined : Event world
joined = notice (record {
  id = 0;
  time = pos 100;
  self_id = pos 10;
  notice_type = "group_increase";
  sub_type = "approve";
  extra = number (pos 42);
})

abbrev identified : Session world × SatoriState world ℕ
identified = take_identify tree_json bytes identification true (open_session 2 served)

serves : identified.0.stage ≡ serving
unfolding take_identify open_session identifies access_token answer_identify write_ready
serves = refl

abbrev pushed : Session world × SatoriState world ℕ
pushed = push_signal joined identified

still_serves : pushed.0.stage ≡ serving
unfolding push_signal take_identify open_session identifies access_token answer_identify write_ready
still_serves = refl

counts : identified.1.sn_counter + 1 < 2 ^ 64
unfolding take_identify open_session identifies access_token answer_identify
counts = omega arith

Run-IsOrderly_example :
    IsOrderly 2
      (write_signal pushed.0, pushed.1)
      (((false || identifies tree_json bytes (bytes "secret") identification) || false) || false)
unfolding access_token open_session
Run-IsOrderly_example = Run-IsOrderly tree_json bytes (
    then_step
      (then_step (then_step (opened served) (identify_step identification true refl))
        (push_step joined serves counts))
      (write_step still_serves))
