-- ===== src/Tests/Traffic.antt =====
-- crates/ferroq-gateway/src/stats.rs and forward.rs at concrete inputs.
use ferroq.Prelude.{ℕ, ◌≡◌, refl, String, true, false, none, some, List, [], ◌∷◌, ◌++◌, arith}
use ferroq.Core.Event.{Event, message}
use ferroq.Core.Adapter.{connected}
use ferroq.Dedup
use ferroq.Dedup.History.{expected}
use ferroq.Stats.{AdapterSnapshot, new}
use ferroq.Stats.Totals.{Traffic, event, call, open_after}
use ferroq.Forward.{EventBus, deliver}
use ferroq.Forward.Delivery.{survivors, stamped, sent-deliver-expected}
use ferroq.Tests.Data.{demo, mixer, view, timestamp, hello, joined}

abbrev snapshot : AdapterSnapshot
snapshot = record {
  name = "one";
  backend_type = "lagrange";
  url = "ws://localhost";
  state = connected;
  self_id = none;
  healthy = true;
  health_check_ms = some 3;
  last_health_check = some 1700000000;
  events_total = 0;
  api_calls_total = 0;
}

abbrev traffic : List Traffic
traffic = event "one" ∷ call "two" ∷ event "one" ∷ []

one_left : open_after 0 (true ∷ true ∷ false ∷ []) ≡ some 1
unfolding open_after
one_left = refl

abbrev rounds : List (String × Event demo × ℕ)
rounds = ("one", message (hello 3), 5) ∷ ("two", message (hello 3), 6) ∷ ("one", joined, 7) ∷ []

abbrev heard : EventBus demo
heard = record { receiver_count = 1; sent = [] }

sent-deliver-expected_example :
    (deliver mixer view timestamp
      (record { bus = heard; stats = new; dedup = some (Dedup.new 60 0) })
      rounds).bus.sent
    ≡ []
      ++ survivors (expected (Dedup.from_secs 60) [] (stamped mixer view timestamp rounds)) rounds
sent-deliver-expected_example =
    sent-deliver-expected mixer view timestamp heard new 60 0 rounds refl (omega arith)
