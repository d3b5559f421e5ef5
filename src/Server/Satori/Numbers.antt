-- ===== src/Server/Satori/Numbers.antt =====
-- crates/ferroq-gateway/src/server/satori.rs: the numbers of the events that go out on a
-- connection.
use ferroq.Prelude.{ℕ, ◌≤◌, ◌<◌, List, [], ◌∷◌, ◌++◌, arith}
use ferroq.Core.External.{External}
use ferroq.Core.Event.{Event}
use ferroq.Server.Satori.{Signal, ready_signal, pong_signal, event_signal}

module _ {F : External} where
  -- The numbers rise above `low` up to `high` at most, and no other READY is there.
  abbrev pub Rises : ℕ → List (Signal F) → ℕ → Type 0
  Rises low [] high = low ≤ high
  Rises low (ready_signal ∷ rest) high = ⊥
  Rises low (pong_signal ∷ rest) high = Rises low rest high
  Rises low (event_signal e sn ∷ rest) high = (low < sn) × Rises sn rest high

  pub Rises-le :
      (low high top : ℕ) (log : List (Signal F))
      → Rises low log high
      → high ≤ top
      → Rises low log top
  Rises-le low high top [] r h = omega arith
  Rises-le low high top (ready_signal ∷ rest) r h = r
  Rises-le low high top (pong_signal ∷ rest) r h = Rises-le low high top rest r h
  Rises-le low high top (event_signal e sn ∷ rest) (a, r) h = (a, Rises-le sn high top rest r h)

  pub Rises-event :
      (low high sn : ℕ) (e : Event F) (log : List (Signal F))
      → Rises low log high
      → high < sn
      → Rises low (log ++ event_signal e sn ∷ []) sn
  Rises-event low high sn e [] r h = omega arith
  Rises-event low high sn e (ready_signal ∷ rest) r h = absurd r
  Rises-event low high sn e (pong_signal ∷ rest) r h = Rises-event low high sn e rest r h
  Rises-event low high sn e (event_signal e' n ∷ rest) (a, r) h =
      (a, Rises-event n high sn e rest r h)

  pub Rises-pong :
      (low high : ℕ) (log : List (Signal F))
      → Rises low log high
      → Rises low (log ++ pong_signal ∷ []) high
  Rises-pong low high [] r = r
  Rises-pong low high (ready_signal ∷ rest) r = absurd r
  Rises-pong low high (pong_signal ∷ rest) r = Rises-pong low high rest r
  Rises-pong low high (event_signal e n ∷ rest) (a, r) = (a, Rises-pong n high rest r)
