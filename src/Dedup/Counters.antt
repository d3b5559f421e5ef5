-- ===== src/Dedup/Counters.antt =====
-- crates/ferroq-gateway/src/dedup.rs: `checked_total` and `duplicates_total`.
use ferroq.Prelude.{
  eq_ℕ, ℕ, suc, ◌+◌, ◌%◌, ◌^◌, ◌≡◌, refl, Bool, List, [], ◌∷◌, arith, length, if◌then◌else◌,
  Bool-cases, inl, inr, ◌∙◌,
}
use ferroq.Dedup.{DedupFilter, new, check, run, fetch_add, record_seen}
use ferroq.Dedup.History.{recent, check_lem}

abbrev pub count_true : List Bool → ℕ
count_true [] = 0
count_true (b ∷ bs) = if b then suc (count_true bs) else count_true bs

-- A call counts one event checked, and one duplicate if it answers `true`.
check-counters :
    (f : DedupFilter) (fp now : ℕ)
    → ((check f fp now).1.checked ≡ fetch_add f.checked)
      × ((check f fp now).1.duplicates
          ≡ (if (check f fp now).0 then fetch_add f.duplicates else f.duplicates))
check-counters f fp now = elim (Bool-cases (recent f.window f.seen fp now)) [
  | inl e ↦ rw (check_lem, e) (refl, refl)
  | inr e ↦ rw (check_lem, e) (unfold record_seen in ground arith)
]

run-counters :
    (f : DedupFilter) (calls : List (ℕ × ℕ)) (c d : ℕ)
    → f.checked ≡ c % 2 ^ 64
    → f.duplicates ≡ d % 2 ^ 64
    → ((run f calls).1.checked ≡ (c + length calls) % 2 ^ 64)
      × ((run f calls).1.duplicates ≡ (d + count_true (run f calls).0) % 2 ^ 64)
unfolding run
run-counters f [] c d hc hd = omega arith
run-counters f ((fp, now) ∷ calls) c d hc hd =
    let one = check-counters f fp now in
    elim (Bool-cases (check f fp now).0) [
      | inl e ↦
          let rest =
            run-counters (check f fp now).1 calls (c + 1) (d + 1) (omega (arith, one.0))
              (rw e at one.1 ∙ omega arith) in
          rw e (omega (arith, rest))
      | inr e ↦
          let rest =
            run-counters (check f fp now).1 calls (c + 1) d (omega (arith, one.0))
              (rw e at one.1 ∙ hd) in
          rw e (omega (arith, rest))
    ]

-- After any calls of a fresh filter the two totals are the number of events checked and the
-- number of answers `true`, as 64-bit counters hold them.
pub run_totals :
    (secs start : ℕ) (calls : List (ℕ × ℕ))
    → ((run (new secs start) calls).1.checked ≡ length calls % 2 ^ 64)
      × ((run (new secs start) calls).1.duplicates
          ≡ count_true (run (new secs start) calls).0 % 2 ^ 64)
unfolding new
run_totals secs start calls =
    let totals = run-counters (new secs start) calls 0 0 refl refl in
    (totals.0 ∙ omega arith, totals.1 ∙ omega arith)
