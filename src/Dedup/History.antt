-- ===== src/Dedup/History.antt =====
-- The promise of the filter, without its map, its eviction and its clock of sweeps: an event is
-- dropped exactly if an event with its fingerprint was let through less than a window ago.
use ferroq.Prelude.{
  eq_ℕ, ℕ, ◌-◌, ◌≤◌, ◌%◌, ◌^◌, ◌≡◌, refl, ltb, Bool, true, false, Option, none, some, List, [], ◌∷◌,
  arith, ◌∙◌, if◌then◌else◌, ◌==◌, Bool-cases, inl, inr, Option-cases,
}
use mathlib.Core.Path.{ap₂}
use ferroq.Prelude.HashMap
use ferroq.Prelude.HashMap.{HashMap, only_if, get-insert, get-retain, insert-Unique, retain-Unique}
use ferroq.Dedup.{DedupFilter, new, maybe_evict, check, record_seen, run, from_secs, fetch_add}

-- The events let through, the latest first: fingerprint and time.
abbrev pub History : Type 0
History = List (ℕ × ℕ)

abbrev within : ℕ → ℕ → Option ℕ → Bool
within window now none = false
within window now (some t) = ltb (now - t) window

unfoldable pub recent : ℕ → HashMap ℕ ℕ → ℕ → ℕ → Bool
unfolding HashMap.get
recent window h fp now = within window now (HashMap.get h fp)

-- What an event adds to the history.
abbrev pub note : ℕ → History → ℕ → ℕ → History
note window h fp now = if recent window h fp now then h else (fp, now) ∷ h

unfoldable pub expected : ℕ → History → List (ℕ × ℕ) → List Bool
unfolding recent
expected window h [] = []
expected window h ((fp, now) ∷ calls) =
    recent window h fp now ∷ expected window (note window h fp now) calls

-- The calls come in the order of the clock, none before `last`.
abbrev pub Ascending : ℕ → List (ℕ × ℕ) → Type 0
Ascending last [] = Unit
Ascending last ((fp, now) ∷ calls) = (last ≤ now) × Ascending now calls

pub record Tracks (window : ℕ) (f : DedupFilter) (h : History) (last : ℕ) : Type 0 where
  pub same_window : f.window ≡ window
  pub unique : HashMap.Unique f.seen
  pub agrees : (fp now : ℕ) → last ≤ now → recent window f.seen fp now ≡ recent window h fp now

recent-insert :
    (window fp now q t : ℕ) (m : HashMap ℕ ℕ)
    → recent window (HashMap.insert fp now m) q t
      ≡ (if fp == q then ltb (t - now) window else recent window m q t)
unfolding recent
recent-insert window fp now q t m = rw (get-insert fp q now m) (ground arith)

recent-cons :
    (window fp now q t : ℕ) (m : HashMap ℕ ℕ)
    → recent window ((fp, now) ∷ m) q t
      ≡ (if fp == q then ltb (t - now) window else recent window m q t)
unfolding recent
recent-cons window fp now q t m = ground arith

within-only_if :
    (window now t : ℕ) (o : Option ℕ)
    → now ≤ t
    → within window t (only_if (λ ts. ltb (now - ts) window) o) ≡ within window t o
within-only_if window now t none h = refl
within-only_if window now t (some a) h = ground arith

recent-retain :
    (window now q t : ℕ) (m : HashMap ℕ ℕ)
    → HashMap.Unique m
    → now ≤ t
    → recent window (HashMap.retain (λ ts. ltb (now - ts) window) m) q t ≡ recent window m q t
unfolding recent
recent-retain window now q t m u h =
    rw (get-retain _ q m u) (within-only_if window now t (HashMap.get m q) h)

-- A sweep changes no answer from its time on.
maybe_evict-Tracks :
    (window now : ℕ) (f : DedupFilter) (h : History)
    → Tracks window f h now
    → Tracks window (maybe_evict f now) h now
unfolding maybe_evict
maybe_evict-Tracks window now f h r =
    elim (Bool-cases
      (ltb ((now - f.start) % 2 ^ 64 - f.last_eviction_ns) (f.eviction_interval % 2 ^ 64))) [
        | inl e ↦ rw e r
        | inr e ↦ rw e (record {
          same_window = r.same_window;
          unique = retain-Unique _ f.seen r.unique;
          agrees = λ q t le.
              rw r.same_window (recent-retain window now q t f.seen r.unique le ∙ r.agrees q t le);
        })
      ]

record_seen-Tracks :
    (window fp now last : ℕ) (f : DedupFilter) (h : History)
    → Tracks window f h last
    → last ≤ now
    → Tracks window (record_seen f fp now).1 ((fp, now) ∷ h) now
unfolding record_seen
record_seen-Tracks window fp now last f h r le = maybe_evict-Tracks window now _ _ (record {
  same_window = r.same_window;
  unique = insert-Unique fp now f.seen r.unique;
  agrees = λ q t nt. rw (recent-insert, recent-cons) (ground (arith, r.agrees q t (omega arith)));
})

-- The two ways a call goes, by the filter's own record of the past.
pub check_lem :
    (f : DedupFilter) (fp now : ℕ)
    → check f fp now ≡ (
        if recent f.window f.seen fp now
        then (true, record f { checked = fetch_add f.checked; duplicates = fetch_add f.duplicates })
        else record_seen (record f { checked = fetch_add f.checked }) fp now)
unfolding check record_seen recent
check_lem f fp now = elim (Option-cases (HashMap.get f.seen fp)) [
  | inl e ↦ ground arith
  | inr (t, e) ↦ ground arith
]

own :
    {window last : ℕ} {f : DedupFilter} {h : History} {b : Bool} (fp now : ℕ)
    → Tracks window f h last
    → last ≤ now
    → recent window h fp now ≡ b
    → recent f.window f.seen fp now ≡ b
own fp now r le e = rw r.same_window (r.agrees fp now le ∙ e)

-- One call of the filter answers as the history does, and keeps up with it.
pub check-Tracks :
    (window fp now last : ℕ) (f : DedupFilter) (h : History)
    → Tracks window f h last
    → last ≤ now
    → ((check f fp now).0 ≡ recent window h fp now)
      × Tracks window (check f fp now).1 (note window h fp now) now
check-Tracks window fp now last f h r le = elim (Bool-cases (recent window h fp now)) [
  | inl e ↦
      rw (check_lem, own fp now r le e, e)
        (
          refl,
          record {
            same_window = r.same_window;
            unique = r.unique;
            agrees = λ q t nt. r.agrees q t (omega arith);
          },
        )
  | inr e ↦
      rw (check_lem, own fp now r le e, e)
        (
          unfold record_seen in refl,
          record_seen-Tracks window fp now last (record f { checked = fetch_add f.checked }) h
              (record { same_window = r.same_window; unique = r.unique; agrees = r.agrees }) le,
        )
]

pub new-Tracks : (secs start : ℕ) → Tracks (from_secs secs) (new secs start) [] start
unfolding new recent
new-Tracks secs start = record { same_window = refl; unique = tt; agrees = λ q t le. refl }

-- The history after a sequence of calls, and the time of its last one.
unfoldable pub notes : ℕ → History → List (ℕ × ℕ) → History
unfolding recent
notes window h [] = h
notes window h ((fp, now) ∷ calls) = notes window (note window h fp now) calls

abbrev pub last_time : ℕ → List (ℕ × ℕ) → ℕ
last_time last [] = last
last_time last ((fp, now) ∷ calls) = last_time now calls

pub run-Tracks :
    (window last : ℕ) (f : DedupFilter) (h : History) (calls : List (ℕ × ℕ))
    → Tracks window f h last
    → Ascending last calls
    → ((run f calls).0 ≡ expected window h calls)
      × Tracks window (run f calls).1 (notes window h calls) (last_time last calls)
unfolding run expected notes
run-Tracks window last f h [] r up = (refl, r)
run-Tracks window last f h ((fp, now) ∷ calls) r up =
    let one = check-Tracks window fp now last f h r up.0 in
    let rest = run-Tracks window now (check f fp now).1 (note window h fp now) calls one.1 up.1 in
    (ap₂ ◌∷◌ one.0 rest.0, rest.1)

-- A fresh filter that is called in the order of the clock gives exactly the answers of the
-- history: an event is dropped if and only if an event with its fingerprint was let through less
-- than `secs` seconds before. Neither the sweeps nor the map's own entries show.
pub run-expected :
    (secs start : ℕ) (calls : List (ℕ × ℕ))
    → Ascending start calls
    → (run (new secs start) calls).0 ≡ expected (from_secs secs) [] calls
run-expected secs start calls up =
    (run-Tracks (from_secs secs) start (new secs start) [] calls (new-Tracks secs start) up).0
