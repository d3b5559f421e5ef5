-- ===== src/Tests/Data.antt =====
-- Stand-ins for the parameters of the model, and adapters that count their calls.
use ferroq.Prelude.{
  ℕ, suc, ◌+◌, ◌*◌, ◌%◌, ◌^◌, String, Bool, true, Option, none, some, [], arith, if◌then◌else◌,
}
use ferroq.Prelude.Int.{ℤ, pos}
use ferroq.Core.External.{External}
use ferroq.Core.Error.{connection, Result, ok, err}
use ferroq.Core.Config.{BackendConfig, default_backend}
use ferroq.Core.Event.{Event, MessageEvent, notice, Sender, group}
use ferroq.Core.Adapter.{BackendAdapter, connected, disconnected}
use ferroq.Core.Api.{ApiRequest}
use ferroq.Dedup.Fingerprint.{Json, Hasher, string}

abbrev pub demo : External
demo = record { Value = String; DateTime = ℤ; Uuid = ℕ }

abbrev pub view : String → Json
view s = string s

abbrev pub timestamp : ℤ → ℤ
timestamp t = t

abbrev mix : ℕ → ℕ → ℕ
mix n s = (s * 31 + n) % 2 ^ 64

abbrev pub mixer : Hasher
mixer = record {
  State = ℕ;
  new = 7;
  hash_u8 = mix;
  hash_bool = λ b. mix (if b then 1 else 0);
  hash_i64 = λ z. mix (elim z [ ℤ.pos n ↦ n | ℤ.negsuc n ↦ n + 1 ]);
  hash_u64 = mix;
  hash_usize = mix;
  hash_str = λ t. mix 5;
  finish = λ s. s % 2 ^ 64;
  finish-lt = λ s. omega arith;
}

abbrev sender : Sender
sender = record {
  user_id = pos 5;
  nickname = "ann";
  card = none;
  sex = none;
  age = none;
  area = none;
  level = none;
  role = none;
  title = none;
}

abbrev pub hello : ℕ → MessageEvent demo
hello n = record {
  id = 0;
  time = pos 100;
  self_id = pos 10;
  message_type = group;
  sub_type = "normal";
  message_id = pos n;
  user_id = pos 5;
  group_id = some (pos 99);
  message = [];
  raw_message = "hi";
  sender = sender;
  font = pos 0;
}

abbrev pub joined : Event demo
joined = notice (record {
  id = 0;
  time = pos 100;
  self_id = pos 10;
  notice_type = "group_increase";
  sub_type = "approve";
  extra = "42";
})

-- An adapter of an account; the world is the number of calls made.
abbrev pub bot : String → Option ℤ → Bool → BackendAdapter demo ℕ
bot name account up = record {
  info = λ w. record {
    name = name;
    backend_type = "lagrange";
    url = "ws://localhost";
    state = if up then connected else disconnected;
    self_id = account;
  };
  connect = λ w. (if up then ok tt else err (connection name), suc w);
  disconnect = λ w. (ok tt, suc w);
  call_api = λ request w. (
    if up
        then ok (record {
          status = "ok";
          retcode = pos 0;
          payload = name;
          message = "";
          echo = request.echo;
        })
        else err (connection name),
    suc w,
  );
  health_check = λ w. (up, suc w);
}

abbrev pub asking : Option ℤ → ApiRequest demo
asking account = record { action = "send_msg"; params = "{}"; echo = none; self_id = account }

abbrev pub made : String → BackendConfig → BackendAdapter demo ℕ
made name config = bot name (some (pos 10)) true

abbrev pub refused : String → BackendConfig → Result (BackendAdapter demo ℕ)
refused name config = err (connection "appid is missing")

abbrev pub local : BackendConfig
local = default_backend "lagrange" "ws://localhost:8081"
