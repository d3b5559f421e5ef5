-- ===== src/Dedup/Window.antt =====
-- crates/ferroq-gateway/src/dedup.rs: what the window means for two events alike.
use ferroq.Prelude.{
  eq_ℕ, ℕ, ◌+◌, ◌<◌, ◌≤◌, ◌≡◌, refl, true, false, some, List, [], ◌∷◌, arith, ◌==◌, ==_refl,
  Bool-cases, inl, inr, ◌∙◌,
}
use ferroq.Prelude.HashMap
use ferroq.Dedup.{new, check, run, from_secs}
use ferroq.Dedup.History.{
  History, recent, note, notes, last_time, Ascending, check-Tracks, new-Tracks, run-Tracks,
}

-- The history holds an event with the fingerprint at or after the time `t`.
abbrev SinceThen : History → ℕ → ℕ → Type 0
SinceThen h fp t = (t' : ℕ) × (HashMap.get h fp ≡ some t') × (t ≤ t')

note-SinceThen :
    (window : ℕ) (h : History) (fp t q now : ℕ)
    → SinceThen h fp t
    → t ≤ now
    → SinceThen (note window h q now) fp t
note-SinceThen window h fp t q now (t', e, le) b = elim (Bool-cases (recent window h q now)) [
  | inl r ↦ rw r (t', e, le)
  | inr r ↦ rw r (
      unfold HashMap.get in
      elim (Bool-cases (q == fp)) [
        | inl same ↦ rw same (now, refl, b)
        | inr other ↦ rw other (t', e, le)
      ])
]

notes-SinceThen :
    (window : ℕ) (h : History) (fp t last : ℕ) (calls : List (ℕ × ℕ))
    → SinceThen h fp t
    → t ≤ last
    → Ascending last calls
    → SinceThen (notes window h calls) fp t
unfolding notes
notes-SinceThen window h fp t last [] s le up = s
notes-SinceThen window h fp t last ((q, now) ∷ calls) s le up =
    notes-SinceThen window (note window h q now) fp t now calls
      (note-SinceThen window h fp t q now s (omega arith)) (omega arith) up.1

recent_of_SinceThen :
    (window : ℕ) (h : History) (fp t now : ℕ)
    → SinceThen h fp t
    → t ≤ now
    → now < t + window
    → recent window h fp now ≡ true
unfolding recent
recent_of_SinceThen window h fp t now (t', e, le) up b = rw e (ground arith)

last_time-ge :
    (last : ℕ) (calls : List (ℕ × ℕ)) → Ascending last calls → last ≤ last_time last calls
last_time-ge last [] up = omega arith
last_time-ge last ((fp, now) ∷ calls) up = omega (arith, last_time-ge now calls up.1)

-- Whatever a fresh filter was asked before, and whatever it is asked in between: once an event is
-- let through at the time `t`, an event with its fingerprint at a time `t'` less than the window
-- later is dropped, if the clock does not go back.
pub check_within_window :
    (secs start fp t t' : ℕ) (before between : List (ℕ × ℕ))
    → Ascending start before
    → last_time start before ≤ t
    → (check (run (new secs start) before).1 fp t).0 ≡ false
    → Ascending t between
    → last_time t between ≤ t'
    → t' < t + from_secs secs
    → (check (run (check (run (new secs start) before).1 fp t).1 between).1 fp t').0 ≡ true
check_within_window secs start fp t t' before between up le passed up' le' near =
    let window = from_secs secs in
    let first = run-Tracks window start (new secs start) [] before (new-Tracks secs start) up in
    let h = notes window [] before in
    let f = (run (new secs start) before).1 in
    let here = check-Tracks window fp t (last_time start before) f h first.1 le in
    let through : recent window h fp t ≡ false = cc here.0 in
    let rest = run-Tracks window t (check f fp t).1 (note window h fp t) between here.1 up' in
    let since =
      notes-SinceThen window (note window h fp t) fp t t between
        (rw through (t, unfold HashMap.get in rw (==_refl fp), omega arith)) (omega arith) up' in
    let last =
      check-Tracks window fp t' (last_time t between) (run (check f fp t).1 between).1
        (notes window (note window h fp t) between) rest.1 le' in
    last.0
    ∙ recent_of_SinceThen window _ fp t t' since (omega (arith, last_time-ge t between up')) near
