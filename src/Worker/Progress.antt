-- ===== src/Worker/Progress.antt =====
-- `Run` catches up with the journal.
use high_load_ledger.Prelude.{
  ◌^◌, ◌<◌, suc, arith, ◌≤◌, not, sym, false, Bool, ◌⊎◌, subst, true, ℕ, zero, ◌+◌, ltb, leb, ◌≡◌,
  refl, ap, ◌∙◌, none, some, List, [], ◌∷◌, if◌then◌else◌, inl, inr, Bool-cases,
}
use high_load_ledger.Store.{Tables}
use high_load_ledger.Store.Rows.{max_posting}
use high_load_ledger.World.{Env, World}
use high_load_ledger.World.Frame.{Wp}
use high_load_ledger.World.Sure.{Sure-elim, IsReliable}
use high_load_ledger.Postgres.{get_cursor_position, get_active_accounts, update_cursor_position}
use high_load_ledger.Worker.Defs.{
  run, new_posting_worker, run_loop, validate_balance, is_canceled, continued, wait_backoff,
  commit_batch, check_batch, validate_users, check_users, Iteration, back_off, run_once,
  PostingWorker,
}
use high_load_ledger.Entity.{Uuid}
use high_load_ledger.Store.Ledger.{IsConsistent}
use high_load_ledger.Result.{err, ok, Result}
use high_load_ledger.Worker.Uncanceled.{validate_balance-Uncanceled, uncanceled}
use high_load_ledger.Worker.Results.{validate_balance_settled}
use high_load_ledger.Worker.Loop.{SameLedger-IsConsistent, once-SameLedger}
use high_load_ledger.Prelude.Int.{int_laws, negsuc, ◌≤ℤ◌, pos, ℤ}
use high_load_ledger.Worker.Limits.{
  limit_of-le, limit_of-eq, limit_of, position, find_cursor-put, upper_of, moved_to, limits-Sure,
  active-Sure, cursor-Sure,
}

new_posting_worker_ok :
    (has_cursor has_metrics : Bool) (name : ℕ) (batch backoff : ℤ) (pw : PostingWorker)
    → new_posting_worker has_cursor has_metrics name batch backoff ≡ ok pw
    → (pw.has_cursor ≡ has_cursor) × (1 ≤ pw.batch_size)
unfolding new_posting_worker
new_posting_worker_ok has_cursor has_metrics name batch backoff pw h = (ground arith, ground arith)

at_end :
    (p batch m : ℕ) → 1 ≤ batch → leb (if ltb m (p + batch) then m else p + batch) p ≡ true → m ≤ p
at_end p batch m h k = ground (arith, h, k)

above : (upper p : ℕ) → leb upper p ≡ false → suc p ≤ upper
above upper p h = ground (arith, h)

module _ {env : Env} (reliable : IsReliable env)
    (open_context : (n : ℕ) → env.context_error n ≡ none) (pw : PostingWorker) where
  users-go :
      (users : List Uuid) (upper : ℕ) (w : World)
      → IsConsistent w.db
      → ((validate_users env pw users upper w).0 ≡ true)
        × ((validate_users env pw users upper w).1.db ≡ w.db)
  unfolding validate_users
  users-go [] upper w c = (refl, refl)
  users-go (id ∷ users) upper w c =
      let o = validate_balance env pw id upper w in
      let same = validate_balance_settled env pw id upper w o.1 o.0 reliable.quiet c refl in
      let (going, kept) = users-go users upper o.1 (subst IsConsistent (sym same) c) in
      next o (validate_balance-Uncanceled reliable open_context pw id upper w) going (kept ∙ same)
    where
      next :
          (o : Result (Unit {0}) × World)
          → uncanceled o.0 ≡ true
          → (validate_users env pw users upper o.1).0 ≡ true
          → (validate_users env pw users upper o.1).1.db ≡ w.db
          → let after = elim o.0 as (λ _. Bool × World) [
            | ok _ ↦ validate_users env pw users upper o.1
            | err e ↦ if is_canceled e then (false, o.1) else validate_users env pw users upper o.1
          ] in
            (after.0 ≡ true) × (after.1.db ≡ w.db)
      next (ok a, v) h g k = (g, k)
      next (err e, v) h g k = elim (Bool-cases (is_canceled e)) [
        | inl canceled_e ↦ absurd (cc (ap not canceled_e, h))
        | inr other_e ↦ rw other_e (g, k)
      ]

  commit-goes :
      (last upper : ℕ) (w : World)
      → ((commit_batch env pw last upper w).0 ≡ continued upper)
        × ((commit_batch env pw last upper w).1.db ≡ moved_to pw upper w.db)
  unfolding Wp commit_batch
  commit-goes last upper w =
      Sure-elim _
        (λ (o : Iteration × World). (o.0 ≡ continued upper) × (o.1.db ≡ moved_to pw upper w.db))
        (update_cursor_position env pw.worker_name upper w) (λ _ v. (continued upper, v))
        (λ _ v. back_off env last v) (cursor-Sure reliable pw upper w) (λ _ v d. (refl, d))

  users_batch-goes :
      (last upper : ℕ) (users : List Uuid) (w : World)
      → IsConsistent w.db
      → ((check_users env pw last users upper w).0 ≡ continued upper)
        × ((check_users env pw last users upper w).1.db ≡ moved_to pw upper w.db)
  unfolding check_users
  users_batch-goes last upper users w c =
      let (going, same) = users-go users upper w c in
      let w' = (validate_users env pw users upper w).1 in
      let (i, d) = commit-goes last upper w' in
      rw (going, check_users) (i, d ∙ ap (moved_to pw upper) same)

  back_off-goes :
      (last : ℕ) (w : World)
      → ((back_off env last w).0 ≡ continued last) × ((back_off env last w).1.db ≡ w.db)
  unfolding back_off wait_backoff
  back_off-goes last w = rw (open_context w.clock, back_off) (refl, refl)

  -- An iteration goes on, and either there was nothing new or the cursor moves to its limit.
  abbrev Stepped : Bool → World → Iteration × World → Type 0
  Stepped nothing_new w (i, v) =
      (last : ℕ) × (i ≡ continued last)
      × (((nothing_new ≡ true) × (v.db ≡ w.db))
          ⊎ ((nothing_new ≡ false) × (v.db ≡ moved_to pw (upper_of pw w) w.db)))

  abbrev Goes : World → Iteration × World → Type 0
  Goes w o = Stepped (leb (upper_of pw w) (position pw.worker_name w.db)) w o

  -- A limit that is not above the position, with nothing new.
  nothing-Goes :
      (last : ℕ) (limit : ℤ) (w v : World)
      → limit ≤ℤ pos (position pw.worker_name w.db)
      → leb (upper_of pw w) (position pw.worker_name w.db) ≡ true
      → v.db ≡ w.db
      → Goes w (check_batch env pw last (position pw.worker_name w.db, limit) v)
  unfolding check_batch
  nothing-Goes last (negsuc n) w v below nothing same =
      let (i, d) = back_off-goes last v in (last, i, inl (nothing, d ∙ same))
  nothing-Goes last (pos upper) w v below nothing same =
      let (i, d) = back_off-goes last v in
      let at_end : leb upper (position pw.worker_name w.db) ≡ true = ground (arith, below) in
      rw (at_end, check_batch) (last, i, inl (nothing, d ∙ same))

  batch-Goes :
      (last : ℕ) (w v : World)
      → IsConsistent w.db
      → v.db ≡ w.db
      → Goes w (check_batch env pw last (position pw.worker_name w.db, pos (upper_of pw w)) v)
  unfolding check_batch
  batch-Goes last w v c same =
      elim (Bool-cases (leb (upper_of pw w) (position pw.worker_name w.db))) [
        | inl nothing ↦
            let (i, d) = back_off-goes last v in
            rw (nothing, check_batch) (last, i, inl (refl, d ∙ same))
        | inr some_new ↦ rw some_new (
            Sure-elim _ (λ o. Stepped false w o)
              (get_active_accounts env (position pw.worker_name w.db) (upper_of pw w) v)
              (λ users u. check_users env pw last users (upper_of pw w) u)
              (λ _ u. back_off env last u)
              (active-Sure reliable pw (position pw.worker_name w.db) (upper_of pw w) v)
              λ users u d.
                let (i, f) =
                  users_batch-goes last (upper_of pw w) users u
                    (subst IsConsistent (sym (d ∙ same)) c) in
                (upper_of pw w, i, inr (refl, f ∙ ap (moved_to pw (upper_of pw w)) (d ∙ same))))
      ]

  -- The sum of position and batch wraps round only if the position is past all postings.
  limited-Goes :
      (last : ℕ) (w v : World)
      → IsConsistent w.db
      → max_posting w.db.postings + pw.batch_size < 2 ^ 63
      → v.db ≡ w.db
      → Goes w (check_batch env pw last (position pw.worker_name w.db, limit_of pw w) v)
  limited-Goes last w v c room same =
      elim (Bool-cases (ltb (position pw.worker_name w.db + pw.batch_size) (2 ^ 63))) [
        | inl small ↦
            subst (λ k. Goes w (check_batch env pw last (position pw.worker_name w.db, k) v))
              (sym (limit_of-eq pw w (ground (arith, small)))) (batch-Goes last w v c same)
        | inr large ↦
            nothing-Goes last (limit_of pw w) w v
              (omega (int_laws, limit_of-le pw w, past large room))
              (ground (arith, past large room)) same
      ]
    where
      past :
          ltb (position pw.worker_name w.db + pw.batch_size) (2 ^ 63) ≡ false
          → max_posting w.db.postings + pw.batch_size < 2 ^ 63
          → max_posting w.db.postings ≤ position pw.worker_name w.db
      past large room = ground (arith, large, room)

  once-Goes :
      (last : ℕ) (w : World)
      → IsConsistent w.db
      → max_posting w.db.postings + pw.batch_size < 2 ^ 63
      → Goes w (run_once env pw last w)
  unfolding run_once
  once-Goes last w c room =
      rw (open_context w.clock, run_once)
        (Sure-elim _ (Goes w) (get_cursor_position env pw.worker_name pw.batch_size w)
          (λ limits v. check_batch env pw last limits v) (λ _ v. back_off env last v)
          (limits-Sure reliable pw w)
          λ l v (is_l, d).
            subst (λ k. Goes w (check_batch env pw last k v)) (sym is_l)
              (limited-Goes last w v c room d))

  position-moved : (p : ℕ) (t : Tables) → position pw.worker_name (moved_to pw p t) ≡ p
  position-moved p t =
      ap (λ o. elim o as (λ _. ℕ) [ none ↦ zero | some q ↦ q ])
        (find_cursor-put pw.worker_name p t.cursors)

  module _ (some_batch : 1 ≤ pw.batch_size) where
    -- After an iteration the cursor is at the end of the journal, or further than before.
    stepped-further :
        (w : World) (o : Iteration × World)
        → Goes w o
        → (max_posting w.db.postings ≤ position pw.worker_name o.1.db)
          ⊎ (suc (position pw.worker_name w.db) ≤ position pw.worker_name o.1.db)
    stepped-further w (i, v) (last, _, inl (nothing, same)) = inl (
        subst (λ t. max_posting w.db.postings ≤ position pw.worker_name t) (sym same)
          (at_end (position pw.worker_name w.db) pw.batch_size (max_posting w.db.postings)
            some_batch nothing))
    stepped-further w (i, v) (last, _, inr (some_new, moved)) = inr (
        subst (λ t. suc (position pw.worker_name w.db) ≤ position pw.worker_name t) (sym moved)
          (omega (
            arith,
            position-moved (upper_of pw w) w.db,
            above (upper_of pw w) (position pw.worker_name w.db) some_new,
          )))

    Goes-on : (w : World) (o : Iteration × World) → Goes w o → (last : ℕ) × (o.0 ≡ continued last)
    Goes-on w (i, v) (last, e, _) = (last, e)

    loop_catches_up :
        (fuel last : ℕ) (w : World)
        → IsConsistent w.db
        → max_posting w.db.postings + pw.batch_size < 2 ^ 63
        → max_posting w.db.postings ≤ fuel + position pw.worker_name w.db
        → let (i, v) = run_loop env pw fuel last w in
          ((last' : ℕ) × (i ≡ continued last'))
          × (max_posting w.db.postings ≤ position pw.worker_name v.db)
    unfolding run_loop
    loop_catches_up zero last w c room enough = ((last, refl), omega (arith, enough))
    loop_catches_up (suc fuel) last w c room enough =
        let o = run_once env pw last w in
        let goes = once-Goes last w c room in
        let (last', e) = Goes-on w o goes in
        let same = once-SameLedger env reliable.quiet pw last w c in
        let postings = ap max_posting same.postings in
        let further = stepped-further w o goes in
        let rest =
          loop_catches_up fuel last' o.1 (SameLedger-IsConsistent same c)
            (omega (arith, postings, room)) (omega (arith, postings, further, enough)) in
        rw (e, run_loop) (rest.0, omega (arith, postings, rest.1))

-- `Run` catches up: in a consistent ledger, while nothing fails, no other session writes and the
-- context is not done, a worker that has been made with its cursor does not return, and after as
-- many iterations as the cursor is behind the largest posting id it has reached this id; if this id
-- and the batch size have a sum that an int64 holds.
pub run_catches_up :
    (env : Env) (has_metrics : Bool) (name : ℕ) (batch backoff : ℤ) (pw : PostingWorker) (fuel : ℕ)
    (w : World)
    → IsReliable env
    → ((n : ℕ) → env.context_error n ≡ none)
    → IsConsistent w.db
    → new_posting_worker true has_metrics name batch backoff ≡ ok pw
    → max_posting w.db.postings + pw.batch_size < 2 ^ 63
    → max_posting w.db.postings ≤ fuel + position pw.worker_name w.db
    → let (i, v) = run env pw fuel w in
      ((last : ℕ) × (i ≡ continued last))
      × (max_posting w.db.postings ≤ position pw.worker_name v.db)
unfolding run
run_catches_up env has_metrics name batch backoff pw fuel w reliable open_context c made room
      enough =
    let (cursor, some_batch) = new_posting_worker_ok true has_metrics name batch backoff pw made in
    let (goes, end) = loop_catches_up reliable open_context pw some_batch fuel 0 w c room enough in
    rw (cursor, run) (goes, end)
