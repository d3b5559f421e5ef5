-- ===== src/Tests/Dedup.antt =====
-- crates/ferroq-gateway/src/dedup.rs at concrete inputs.
use ferroq.Prelude.{◌≡◌, refl, true, false, [], ◌∷◌, arith}
use ferroq.Prelude.Int.{pos}
use ferroq.Dedup.{new, check, run, from_secs}
use ferroq.Dedup.Fingerprint.Message.{fingerprint-message_inj}
use ferroq.Dedup.History.{expected, run-expected}
use ferroq.Dedup.Window.{check_within_window}
use ferroq.Tests.Data.{view, timestamp, mixer, hello}

-- A window of one second: a repetition half a second later is dropped, one after 1.2 s is not.
repeated :
    (run (new 1 0) ((5, 0) ∷ (5, 500_000_000) ∷ (6, 600_000_000) ∷ (5, 1_200_000_000) ∷ [])).0
    ≡ false ∷ true ∷ false ∷ false ∷ []
unfolding run check new
repeated = refl

run-expected_example :
    (run (new 1 0) ((5, 0) ∷ (5, 500_000_000) ∷ (5, 1_200_000_000) ∷ [])).0
    ≡ expected (from_secs 1) [] ((5, 0) ∷ (5, 500_000_000) ∷ (5, 1_200_000_000) ∷ [])
run-expected_example =
    run-expected 1 0 ((5, 0) ∷ (5, 500_000_000) ∷ (5, 1_200_000_000) ∷ []) (omega arith)

fingerprint-message_inj_example : (pos 10 ≡ pos 10) × (pos 3 ≡ pos 3)
fingerprint-message_inj_example =
    fingerprint-message_inj mixer view timestamp (hello 3) (hello 3) (omega arith) (omega arith)
      (omega arith) (omega arith) refl

first_passes : (check (run (new 1 0) ((4, 10) ∷ [])).1 5 20).0 ≡ false
unfolding run check new
first_passes = refl

check_within_window_example :
    (check (run (check (run (new 1 0) ((4, 10) ∷ [])).1 5 20).1 ((6, 30) ∷ [])).1 5 40).0 ≡ true
check_within_window_example =
    check_within_window 1 0 5 20 40 ((4, 10) ∷ []) ((6, 30) ∷ []) (omega arith) (omega arith)
      first_passes (omega arith) (omega arith) (omega arith)
