-- ===== src/Worker/Limits.antt =====
-- The calls of an iteration of `Run` while nothing fails.
use high_load_ledger.Prelude.{
  arith, ◌^◌, ◌<◌, ℕ, zero, ◌+◌, ltb, leb, ◌≡◌, refl, ap, ◌∙◌, Option, none, some, List, [], ◌∷◌,
  ◌==◌, ==_self, if◌then◌else◌, inl, inr, Bool-cases,
}
use high_load_ledger.Store.{Tables}
use high_load_ledger.Store.Rows.{find_cursor, put_cursor, max_posting, active_accounts}
use high_load_ledger.World.{Env, World, M, ◌>>=◌, pure, tick}
use high_load_ledger.World.Frame.{Wp-weaken, Wp}
use high_load_ledger.World.Sure.{IsReliable, Sure, Sure-bind}
use high_load_ledger.Postgres.{
  on_pool, reading, get_cursor_position, get_active_accounts, update_cursor_position,
}
use high_load_ledger.Postgres.Sure.{reading-Sure}
use high_load_ledger.Worker.Defs.{PostingWorker}
use high_load_ledger.Prelude.Int.{pos, ◌≤ℤ◌, ltb_ℤ, ℤ}
use high_load_ledger.Prelude.Words.{to_int64}
use high_load_ledger.Prelude.Wrap.{to_int64_fits}

-- The position of the cursor, 0 if there is none.
abbrev pub position : ℕ → Tables → ℕ
position name t = elim (find_cursor name t.cursors) as (λ _. ℕ) [ none ↦ zero | some p ↦ p ]

pub find_cursor-put :
    (name p : ℕ) (cs : List (ℕ × ℕ)) → find_cursor name (put_cursor name p cs) ≡ some p
unfolding find_cursor put_cursor
find_cursor-put name p [] = rw (==_self name) refl
find_cursor-put name p ((n, old) ∷ cs) = elim (Bool-cases (n == name)) [
  | inl same ↦ rw (same, same) refl
  | inr differs ↦ rw (differs, differs) (find_cursor-put name p cs)
]

-- The upper limit of a batch.
abbrev pub upper_of : PostingWorker → World → ℕ
upper_of pw w =
    let upper = position pw.worker_name w.db + pw.batch_size in
    let max_id = max_posting w.db.postings in if ltb max_id upper then max_id else upper

abbrev pub not_above : ℕ → ℤ → ℤ
not_above m upper = if ltb_ℤ (pos m) upper then pos m else upper

-- What the sum of int64 makes of it.
abbrev pub limit_of : PostingWorker → World → ℤ
limit_of pw w =
    not_above (max_posting w.db.postings)
      (to_int64 (pos (position pw.worker_name w.db + pw.batch_size)))

-- It is the upper limit unless the sum wraps round.
pub limit_of-eq :
    (pw : PostingWorker) (w : World)
    → position pw.worker_name w.db + pw.batch_size < 2 ^ 63
    → limit_of pw w ≡ pos (upper_of pw w)
limit_of-eq pw w small =
    ap (not_above (max_posting w.db.postings))
      (to_int64_fits (pos (position pw.worker_name w.db + pw.batch_size)) (ground (arith, small)))
    ∙ ground arith

not_above-le : (m : ℕ) (upper : ℤ) → not_above m upper ≤ℤ pos m
not_above-le m upper = elim (Bool-cases (ltb_ℤ (pos m) upper)) [
  | inl above ↦ rw above (omega arith)
  | inr below ↦ rw below (ground (arith, below))
]

-- It is never above the largest id.
pub limit_of-le :
    (pw : PostingWorker) (w : World) → limit_of pw w ≤ℤ pos (max_posting w.db.postings)
limit_of-le pw w =
    not_above-le (max_posting w.db.postings)
      (to_int64 (pos (position pw.worker_name w.db + pw.batch_size)))

-- The tables after a batch: only the cursor has moved.
abbrev pub moved_to : PostingWorker → ℕ → Tables → Tables
moved_to pw p t = record t { cursors = put_cursor pw.worker_name p t.cursors }

module _ {env : Env} (reliable : IsReliable env) (pw : PostingWorker) where
  pub limits-Sure :
      (w : World)
      → Sure
          (λ l v. (l ≡ (position pw.worker_name w.db, limit_of pw w)) × (v.db ≡ w.db))
          (get_cursor_position env pw.worker_name pw.batch_size w)
  unfolding Wp get_cursor_position
  limits-Sure w =
      let Q = λ (l : ℕ × ℤ) (v : World).
        (l ≡ (position pw.worker_name w.db, limit_of pw w)) × (v.db ≡ w.db) in
      let top = on_pool env (reading (λ t. max_posting t.postings)) in
      let cursor = λ (found : Option ℕ). elim found as (λ _. ℕ) [ none ↦ zero | some p ↦ p ] in
      let limited : ℕ → ℕ → ℕ × ℤ = λ c m. (c, not_above m (to_int64 (pos (c + pw.batch_size)))) in
      let k2 : ℕ → ℕ → M (ℕ × ℤ) = λ c m. pure (limited c m) in
      let k1 = λ (found : Option ℕ). top >>= k2 (cursor found) in
      Sure-bind Q (on_pool env (reading (λ t. find_cursor pw.worker_name t.cursors))) k1 w
        (reading-Sure reliable (λ t. find_cursor pw.worker_name t.cursors) w)
        λ found w1 (e1, d1).
          Sure-bind Q top (k2 (cursor found)) w1
            (reading-Sure reliable (λ t. max_posting t.postings) w1)
            λ m w2 (e2, d2). (
              ap (λ o. limited (cursor o) m) e1
                  ∙ ap (limited (position pw.worker_name w.db))
                      (e2 ∙ ap (λ t. max_posting t.postings) d1),
              d2 ∙ d1,
            )

  pub active-Sure :
      (lo hi : ℕ) (w : World) → Sure (λ _ v. v.db ≡ w.db) (get_active_accounts env lo hi w)
  unfolding Wp get_active_accounts
  active-Sure lo hi w = elim (Bool-cases (leb hi lo)) [
    | inl empty ↦ rw empty refl
    | inr wide ↦ rw wide (
        Wp-weaken (λ _ v. v.db ≡ w.db) (λ _. ⊥) _
          (reading-Sure reliable (λ t. active_accounts lo hi t.postings) w) (λ _ _ h. h.1)
          (λ _ e. e))
  ]

  pub cursor-Sure :
      (p : ℕ) (w : World)
      → Sure
          (λ _ v. v.db ≡ record w.db { cursors = put_cursor pw.worker_name p w.db.cursors })
          (update_cursor_position env pw.worker_name p w)
  unfolding Wp update_cursor_position on_pool tick
  cursor-Sure p w =
      rw (reliable.works w.clock, reliable.quiet.alone w.clock w.db, update_cursor_position) refl
