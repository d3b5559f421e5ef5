-- ===== src/Server/Reverse/Waits.antt =====
-- crates/ferroq-gateway/src/server/onebot_v11.rs: how long `reverse_ws_task` waits, and with which
-- token it connects.
use ferroq.Prelude.{
  ℕ, suc, ◌*◌, ◌^◌, min, Bool, true, false, none, some, List, [], ◌∷◌, ◌≡◌, refl, ap, arith,
  if◌then◌else◌, Option-cases, inl, inr, Bool-cases,
}
use ferroq.Core.Config.{WsReverseTarget}
use ferroq.Server.Reverse.{
  Handshake, Meets, Round, base_interval, max_interval, next_interval, build_reverse_ws_request,
  reverse_round, reverse_rounds, reverse_ws_task,
}

interval-suc :
    (n : ℕ)
    → next_interval (min (base_interval * 2 ^ n) max_interval)
      ≡ min (base_interval * 2 ^ suc n) max_interval
unfolding next_interval
interval-suc n = omega arith

module _ (H : Handshake) where
  -- Whether an attempt is successful, told from the target, the token and the other side.
  abbrev pub succeeds : WsReverseTarget → Meets H → Bool
  succeeds target m = elim (build_reverse_ws_request H target m.token) [
    | none ↦ false
    | some request ↦ m.accepts request
  ]

  -- A round that connects, and one that does not, with the seconds that it sleeps.
  abbrev pub told : WsReverseTarget → Meets H → Bool → ℕ → Round H
  told target m connected slept = record {
    sent = build_reverse_ws_request H target m.token;
    connected = connected;
    slept = slept;
  }

  -- The rounds told by the number of failures since the start, or of rounds since the last
  -- connection, that one included.
  abbrev pub expected : WsReverseTarget → ℕ → List (Meets H) → List (Round H)
  expected target n [] = []
  expected target n (m ∷ ms) =
      if succeeds target m
      then told target m true base_interval ∷ expected target 1 ms
      else told target m false (min (base_interval * 2 ^ n) max_interval)
        ∷ expected target (suc n) ms

  -- One round, told by whether the attempt is successful.
  round_connected :
      (target : WsReverseTarget) (current : ℕ) (m : Meets H)
      → succeeds target m ≡ true
      → reverse_round H target current m ≡ told target m true base_interval
  unfolding reverse_round
  round_connected target current m h =
      elim (Option-cases (build_reverse_ws_request H target m.token)) [
        | inl e ↦ absurd (ground (arith, e))
        | inr (r, e) ↦ ground (arith, e)
      ]

  round_failed :
      (target : WsReverseTarget) (current : ℕ) (m : Meets H)
      → succeeds target m ≡ false
      → reverse_round H target current m ≡ told target m false current
  unfolding reverse_round
  round_failed target current m h =
      elim (Option-cases (build_reverse_ws_request H target m.token)) [
        | inl e ↦ ground (arith, e)
        | inr (r, e) ↦ ground (arith, e)
      ]

  reverse_rounds-expected :
      (target : WsReverseTarget) (n : ℕ) (ms : List (Meets H))
      → reverse_rounds H target (min (base_interval * 2 ^ n) max_interval) ms ≡ expected target n ms
  unfolding reverse_rounds
  reverse_rounds-expected target n [] = refl
  reverse_rounds-expected target n (m ∷ ms) = elim (Bool-cases (succeeds target m)) [
    | inl e ↦
        simp (round_connected target _ m e, e)
          (ap (◌∷◌ (told target m true base_interval)) (reverse_rounds-expected target 1 ms))
    | inr e ↦
        simp (round_failed target _ m e, e, interval-suc n)
          (ap (◌∷◌ (told target m false (min (base_interval * 2 ^ n) max_interval)))
            (reverse_rounds-expected target (suc n) ms))
  ]

  -- A reverse connection is tried in every round with the token that holds when the round
  -- begins; after a failure the task sleeps 5 seconds, doubled for each failure since the start
  -- or round since the last connection, but 120 at most, and after a lost connection 5 seconds.
  pub reverse_ws_task-expected :
      (target : WsReverseTarget) (ms : List (Meets H))
      → reverse_ws_task H target ms ≡ expected target 0 ms
  unfolding reverse_ws_task
  reverse_ws_task-expected target ms = reverse_rounds-expected target 0 ms
