-- ===== src/Runtime/Persist.antt =====
-- crates/ferroq-gateway/src/runtime.rs: the task of `start` that stores the messages of the bus.
use ferroq.Prelude.{
  ℕ, suc, ◌+◌, ◌%◌, ◌^◌, ◌<◌, String, List, [], ◌∷◌, ◌++◌, length, ◌≡◌, refl, sym, ap, ◌∙◌, ◌⊎◌,
  inl, inr, arith,
}
use mathlib.Core.Path.{subst}
use mathlib.Core.List.{append_assoc, append-nil}
use ferroq.Core.External.{External}
use ferroq.Core.Error.{Result, ok, err}
use ferroq.Core.Event.{Event, message, MessageEvent}
use ferroq.Stats.{RuntimeStats, record_message_stored}
use ferroq.Storage.{Bind, Database, insert, insert_sql, insert_values}

-- What `recv` gives while the bus is open.
pub data Received (F : External) : Type 0 where
  received : Event F → Received F
  lagged : ℕ → Received F

-- The second list with some of its items left out, each of which may be lost.
pub data Sublist {A : Type 0} (Lost : A → Type 0) : List A → List A → Type 0 where
  end : Sublist Lost [] []
  taken : {x : A} {xs ys : List A} → Sublist Lost xs ys → Sublist Lost (x ∷ xs) (x ∷ ys)
  left_out : {x : A} {xs ys : List A} → Lost x → Sublist Lost xs ys → Sublist Lost xs (x ∷ ys)

answer-cases :
    {W : Type 0} (p : (String ⊎ ℕ) × W)
    → ((e : String) × (w : W) × (p ≡ (inl e, w))) ⊎ ((n : ℕ) × (w : W) × (p ≡ (inr n, w)))
answer-cases (inl e, w) = inl (e, w, refl)
answer-cases (inr n, w) = inr (n, w, refl)

module _ {F : External} {W : Type 0} (db : Database W) (to_rfc3339 : F.DateTime → String)
    (raw_json : MessageEvent F → String) where
  -- The counters after a message was inserted, or was not.
  abbrev pub count_stored : RuntimeStats → ℕ → Result (Unit {0}) × W → RuntimeStats × ℕ × W
  unfolding record_message_stored
  count_stored stats stored (ok _, w) = (record_message_stored stats, (stored + 1) % 2 ^ 64, w)
  count_stored stats stored (err e, w) = (stats, stored, w)

  unfoldable pub persist_one : Received F → RuntimeStats → ℕ → W → RuntimeStats × ℕ × W
  unfolding insert count_stored
  persist_one (received (message msg)) stats stored w =
      count_stored stats stored (insert db to_rfc3339 raw_json msg w)
  persist_one _ stats stored w = (stats, stored, w)

  -- The loop, until the bus is closed behind the last of these.
  unfoldable pub persist : List (Received F) → RuntimeStats → ℕ → W → RuntimeStats × ℕ × W
  unfolding persist_one
  persist [] stats stored w = (stats, stored, w)
  persist (r ∷ rs) stats stored w =
      let (stats', stored', w') = persist_one r stats stored w in persist rs stats' stored' w'

  -- The rows of the messages received.
  abbrev pub rows_of : List (Received F) → List (List Bind)
  unfolding insert_values
  rows_of [] = []
  rows_of (received (message msg) ∷ rs) = insert_values to_rfc3339 raw_json msg ∷ rows_of rs
  rows_of (_ ∷ rs) = rows_of rs

  -- An INSERT into the table appends its row, or fails and leaves the table as it was.
  pub record Appends (rows : W → List (List Bind)) : Type 0 where
    pub appended :
        (binds : List Bind) (w w' : W) (n : ℕ)
        → db.execute insert_sql binds w ≡ (inr n, w')
        → rows w' ≡ rows w ++ binds ∷ []
    pub unchanged :
        (binds : List Bind) (w w' : W) (e : String)
        → db.execute insert_sql binds w ≡ (inl e, w')
        → rows w' ≡ rows w

  -- An INSERT of this row failed.
  abbrev pub Fails : List Bind → Type 0
  Fails binds = (w w' : W) × (e : String) × (db.execute insert_sql binds w ≡ (inl e, w'))

  -- What has been stored behind the first rows, and how it was counted.
  abbrev pub Stored :
      (W → List (List Bind))
      → List (List Bind)
      → List (Received F)
      → ℕ
      → ℕ
      → RuntimeStats × ℕ × W
      → Type 0
  Stored rows before rs counted stored result =
      (kept : List (List Bind)) × (rows result.2 ≡ before ++ kept)
      × Sublist Fails kept (rows_of rs)
      × (result.0.messages_stored ≡ (counted + length kept) % 2 ^ 64)
      × (result.1 ≡ (stored + length kept) % 2 ^ 64)

  one_more : (n k : ℕ) → ((n + 1) % 2 ^ 64 + k) % 2 ^ 64 ≡ (n + suc k) % 2 ^ 64
  one_more n k = omega arith

  in_range : (n : ℕ) → n < 2 ^ 64 → n ≡ (n + 0) % 2 ^ 64
  in_range n h = omega arith

  insert_failed :
      (msg : MessageEvent F) (rs : List (Received F)) (stats : RuntimeStats) (stored : ℕ) (w w' : W)
      (e : String)
      → db.execute insert_sql (insert_values to_rfc3339 raw_json msg) w ≡ (inl e, w')
      → persist (received (message msg) ∷ rs) stats stored w ≡ persist rs stats stored w'
  unfolding persist persist_one insert
  insert_failed msg rs stats stored w w' e r = rw (r, persist_one, insert) refl

  insert_done :
      (msg : MessageEvent F) (rs : List (Received F)) (stats : RuntimeStats) (stored : ℕ) (w w' : W)
      (n : ℕ)
      → db.execute insert_sql (insert_values to_rfc3339 raw_json msg) w ≡ (inr n, w')
      → persist (received (message msg) ∷ rs) stats stored w
        ≡ persist rs (record_message_stored stats) ((stored + 1) % 2 ^ 64) w'
  unfolding persist persist_one insert
  insert_done msg rs stats stored w w' n r = rw (r, persist_one, insert) refl

  below : (n : ℕ) → (n + 1) % 2 ^ 64 < 2 ^ 64
  below n = omega arith

  -- If an INSERT appends its row or fails without a change, and the counters are below 2^64, then
  -- the rows that the task adds behind those in the table are, in their order, the rows of the
  -- messages received but for those whose INSERT failed, and both counters go up by the number of
  -- the rows added, modulo 2^64.
  pub persist-Stored :
      (rows : W → List (List Bind)) (rs : List (Received F)) (stats : RuntimeStats) (stored : ℕ)
      (w : W)
      → Appends rows
      → stats.messages_stored < 2 ^ 64
      → stored < 2 ^ 64
      → Stored rows (rows w) rs stats.messages_stored stored (persist rs stats stored w)
  unfolding persist persist_one record_message_stored
  persist-Stored rows [] stats stored w a h k =
      ([], sym (append-nil (rows w)), end, in_range _ h, in_range _ k)
  persist-Stored rows (lagged n ∷ rs) stats stored w a h k =
      persist-Stored rows rs stats stored w a h k
  persist-Stored rows (received (message msg) ∷ rs) stats stored w a h k =
      let binds = insert_values to_rfc3339 raw_json msg in
      elim (answer-cases (db.execute insert_sql binds w)) [
        | inl (e, w', r) ↦
            let (kept, at, sub, c, d) = persist-Stored rows rs stats stored w' a h k in
            subst (Stored rows (rows w) (received (message msg) ∷ rs) stats.messages_stored stored)
              (sym (insert_failed msg rs stats stored w w' e r))
              (
                kept,
                at ∙ ap (λ l. l ++ kept) (a.unchanged binds w w' e r),
                left_out (w, w', e, r) sub,
                c,
                d,
              )
        | inr (n, w', r) ↦
            let (kept, at, sub, c, d) =
              persist-Stored rows rs (record_message_stored stats) ((stored + 1) % 2 ^ 64) w' a
                (below stats.messages_stored) (below stored) in
            subst (Stored rows (rows w) (received (message msg) ∷ rs) stats.messages_stored stored)
              (sym (insert_done msg rs stats stored w w' n r))
              (
                binds ∷ kept,
                at
                    ∙ ap (λ l. l ++ kept) (a.appended binds w w' n r)
                    ∙ append_assoc (rows w) (binds ∷ []) kept,
                taken sub,
                c ∙ one_more stats.messages_stored (length kept),
                d ∙ one_more stored (length kept),
              )
      ]
  persist-Stored rows (received (Event.notice e) ∷ rs) stats stored w a h k =
      persist-Stored rows rs stats stored w a h k
  persist-Stored rows (received (Event.request e) ∷ rs) stats stored w a h k =
      persist-Stored rows rs stats stored w a h k
  persist-Stored rows (received (Event.meta e) ∷ rs) stats stored w a h k =
      persist-Stored rows rs stats stored w a h k
