-- ===== src/Worker/Loop.antt =====
-- What `Run` does to the ledger, however long it runs.
use high_load_ledger.Prelude.{
  if◌then◌else◌, ◌+◌, ltb, leb, if◌then◌else◌, Option, Bool-cases, Option, ℕ, zero, suc, ◌≡◌, refl,
  ap, subst, ◌∙◌, sym, Bool, true, false, inl, inr, some, none, List, [], ◌∷◌,
}
use high_load_ledger.Worker.Defs.{returned, continued}
use high_load_ledger.World.{
  fine, refused, lost, M, pure, ◌>>=◌, lost, refused, tick, Fault, IsQuiet, Env, World,
}
use high_load_ledger.Result.{Result, ok, err}
use high_load_ledger.Store.{Tables}
use high_load_ledger.Store.Ledger.{IsConsistent}
use high_load_ledger.Worker.Defs.{
  continued, commit_batch, is_done, is_canceled, wait_backoff, shut_down, Iteration, check_users,
  run_loop, validate_balance, run_once, run, check_batch, back_off, validate_users, PostingWorker,
}
use high_load_ledger.World.Frame.{tick-Frame, Frame-refl, Keeps-bind, Keeps, Evolves-quiet, Frame}
use high_load_ledger.Entity.{Error, Account, Uuid}
use high_load_ledger.Store.Rows.{
  max_posting, active_accounts, find_cursor, put_cursor, postings_sum, find_account,
}
use high_load_ledger.Postgres.{
  reading, run_alone, on_pool, get_cursor_position, update_cursor_position, get_active_accounts,
}
use high_load_ledger.Worker.Results.{validate_balance_settled}
use high_load_ledger.Postgres.Calls.{reading-Keeps}
use high_load_ledger.Prelude.Int.{negsuc, ltb_ℤ, pos, ℤ}
use high_load_ledger.Prelude.Words.{to_int64}

-- The ledger proper: all tables but the cursors.
pub record SameLedger (t u : Tables) : Type 0 where
  pub accounts : u.accounts ≡ t.accounts
  pub transactions : u.transactions ≡ t.transactions
  pub postings : u.postings ≡ t.postings

pub SameLedger-trans : {t u v : Tables} → SameLedger t u → SameLedger u v → SameLedger t v
SameLedger-trans a b = record {
  accounts = b.accounts ∙ a.accounts;
  transactions = b.transactions ∙ a.transactions;
  postings = b.postings ∙ a.postings;
}

pub SameLedger-of-eq : {t u : Tables} → u ≡ t → SameLedger t u
SameLedger-of-eq e = record {
  accounts = ap (λ z. z.accounts) e;
  transactions = ap (λ z. z.transactions) e;
  postings = ap (λ z. z.postings) e;
}

pub SameLedger-IsConsistent : {t u : Tables} → SameLedger t u → IsConsistent t → IsConsistent u
SameLedger-IsConsistent {t} {u} s c = record {
  balanced = λ id row f. c.balanced id row (back id f) ∙ ap (postings_sum id) (sym s.postings);
  recorded = λ id row f. rw s.postings (c.recorded id row (back id f));
  not_negative = λ id row f. c.not_negative id row (back id f);
  unposted = λ id f. rw s.postings (c.unposted id (back id f));
}
  where
    back :
        (id : Uuid) {o : Option Account}
        → find_account id u.accounts ≡ o
        → find_account id t.accounts ≡ o
    back id f = ap (find_account id) (sym s.accounts) ∙ f

-- A result is looked at: what holds in both cases holds.
by_result :
    {A B : Type 0} (R : World → Type 0) (o : Result A × World) (f : A → World → B × World)
    (g : Error → World → B × World)
    → ((a : A) → R (f a o.1).1)
    → ((e : Error) → R (g e o.1).1)
    → R (elim o.0 as (λ _. B × World) [ ok a ↦ f a o.1 | err e ↦ g e o.1 ]).1
by_result R (ok a, w) f g h k = h a
by_result R (err e, w) f g h k = k e

by_test :
    {B : Type 0} (R : World → Type 0) (b : Bool) (x y : B × World)
    → R x.1
    → R y.1
    → R (if b then x else y).1
by_test R true x y h k = h
by_test R false x y h k = k

module _ (env : Env) (quiet : IsQuiet env) (pw : PostingWorker) where
  quiet_Frame : {w v : World} → Frame env w v → SameLedger w.db v.db
  quiet_Frame f = SameLedger-of-eq (Evolves-quiet quiet f.db)

  users-SameLedger :
      (users : List Uuid) (upper : ℕ) (w : World)
      → IsConsistent w.db
      → SameLedger w.db (validate_users env pw users upper w).1.db
  unfolding validate_users
  users-SameLedger [] upper w c = SameLedger-of-eq refl
  users-SameLedger (id ∷ users) upper w c =
      let o = validate_balance env pw id upper w in
      let same =
        SameLedger-of-eq (validate_balance_settled env pw id upper w o.1 o.0 quiet c refl) in
      let rest = users-SameLedger users upper o.1 (SameLedger-IsConsistent same c) in
      by_result (λ v. SameLedger w.db v.db) o (λ _ v. validate_users env pw users upper v)
        (λ e v. if is_canceled e then (false, v) else validate_users env pw users upper v)
        (λ _. SameLedger-trans same rest)
        (λ e.
          by_test (λ v. SameLedger w.db v.db) (is_canceled e) _ _ same (SameLedger-trans same rest))

  stored-SameLedger :
      (w : World) (t : Tables) (name position : ℕ) (fault : Fault) (v : World)
      → SameLedger t v.db
      → SameLedger t
          (run_alone fault
            (λ u. ok (tt, record u { cursors = put_cursor name position u.cursors }))
            v).1.db
  stored-SameLedger w t name position fine v s = record {
    accounts = s.accounts;
    transactions = s.transactions;
    postings = s.postings;
  }
  stored-SameLedger w t name position (refused e) v s = s
  stored-SameLedger w t name position (lost e) v s = record {
    accounts = s.accounts;
    transactions = s.transactions;
    postings = s.postings;
  }

  cursor-SameLedger :
      (name position : ℕ) (w : World)
      → SameLedger w.db (update_cursor_position env name position w).1.db
  unfolding update_cursor_position on_pool
  cursor-SameLedger name position w =
      stored-SameLedger w w.db name position (env.fault w.clock) (tick env w)
        (quiet_Frame (tick-Frame env w))

  back_off-SameLedger : (last : ℕ) (w : World) → SameLedger w.db (back_off env last w).1.db
  unfolding back_off wait_backoff
  back_off-SameLedger last w = SameLedger-of-eq refl

  limits-Keeps : (name batch : ℕ) → Keeps env (get_cursor_position env name batch)
  unfolding get_cursor_position
  limits-Keeps name batch =
      let top = on_pool env (reading (λ t. max_posting t.postings)) in
      let cursor =
        λ (found : Option ℕ). elim found as (λ _. ℕ) [ none ↦ zero | some position ↦ position ] in
      let limit : ℕ → ℤ = λ c. to_int64 (pos (c + batch)) in
      let k2 : ℕ → ℕ → M (ℕ × ℤ) =
        λ c m. pure (c, if ltb_ℤ (pos m) (limit c) then pos m else limit c) in
      let k1 = λ (found : Option ℕ). top >>= k2 (cursor found) in
      Keeps-bind env (on_pool env (reading (λ t. find_cursor name t.cursors))) k1
        (reading-Keeps env _)
        λ found. Keeps-bind env top (k2 (cursor found)) (reading-Keeps env _) λ m w. Frame-refl w

  active-Keeps : (lo hi : ℕ) → Keeps env (get_active_accounts env lo hi)
  unfolding get_active_accounts
  active-Keeps lo hi w = elim (Bool-cases (leb hi lo)) [
    | inl none_new ↦ rw none_new (Frame-refl w)
    | inr some_new ↦ rw some_new (reading-Keeps env (λ t. active_accounts lo hi t.postings) w)
  ]

  batch-SameLedger :
      (last position : ℕ) (upper : ℤ) (w : World)
      → IsConsistent w.db
      → SameLedger w.db (check_batch env pw last (position, upper) w).1.db
  unfolding check_batch check_users commit_batch
  batch-SameLedger last position (negsuc n) w c = back_off-SameLedger last w
  batch-SameLedger last position (pos upper) w c =
      let o = get_active_accounts env position upper w in
      let same = quiet_Frame (active-Keeps position upper w) in
      by_test (λ v. SameLedger w.db v.db) (leb upper position) _ _ (back_off-SameLedger last w)
        (by_result (λ v. SameLedger w.db v.db) o (λ users v. check_users env pw last users upper v)
          (λ e v. back_off env last v)
          (λ users.
            SameLedger-trans same
              (checked-SameLedger last users upper o.1 (SameLedger-IsConsistent same c)))
          (λ e. SameLedger-trans same (back_off-SameLedger last o.1)))
    where
      checked-SameLedger :
          (last : ℕ) (users : List Uuid) (upper : ℕ) (w : World)
          → IsConsistent w.db
          → SameLedger w.db (check_users env pw last users upper w).1.db
      checked-SameLedger last users upper w c =
          let same = users-SameLedger users upper w c in
          let w' = (validate_users env pw users upper w).1 in
          let o = update_cursor_position env pw.worker_name upper w' in
          let stored = SameLedger-trans same (cursor-SameLedger pw.worker_name upper w') in
          by_test (λ v. SameLedger w.db v.db) (validate_users env pw users upper w).0 _ _
            (by_result (λ v. SameLedger w.db v.db) o (λ _ v. (continued upper, v))
              (λ e v. back_off env last v) (λ _. stored)
              (λ e. SameLedger-trans stored (back_off-SameLedger last o.1)))
            same

  pub once-SameLedger :
      (last : ℕ) (w : World) → IsConsistent w.db → SameLedger w.db (run_once env pw last w).1.db
  unfolding run_once shut_down
  once-SameLedger last w c =
      let o = get_cursor_position env pw.worker_name pw.batch_size w in
      let same = quiet_Frame (limits-Keeps pw.worker_name pw.batch_size w) in
      by_test (λ v. SameLedger w.db v.db) (is_done (env.context_error w.clock)) _ _
        (by_test (λ v. SameLedger w.db v.db) (ltb 0 last) _ _
          (cursor-SameLedger pw.worker_name last w) (SameLedger-of-eq refl))
        (by_result (λ v. SameLedger w.db v.db) o (λ limits v. check_batch env pw last limits v)
          (λ e v. back_off env last v)
          (λ limits.
            SameLedger-trans same
              (batch-SameLedger last limits.0 limits.1 o.1 (SameLedger-IsConsistent same c)))
          (λ e. SameLedger-trans same (back_off-SameLedger last o.1)))

  loop-SameLedger :
      (fuel last : ℕ) (w : World)
      → IsConsistent w.db
      → SameLedger w.db (run_loop env pw fuel last w).1.db
  unfolding run_loop
  loop-SameLedger zero last w c = SameLedger-of-eq refl
  loop-SameLedger (suc fuel) last w c =
      let o = run_once env pw last w in
      let same = once-SameLedger last w c in
      by_iteration o same (λ n. loop-SameLedger fuel n o.1 (SameLedger-IsConsistent same c))
    where
      by_iteration :
          (o : Iteration × World)
          → SameLedger w.db o.1.db
          → ((n : ℕ) → SameLedger o.1.db (run_loop env pw fuel n o.1).1.db)
          → SameLedger w.db
              (elim o.0 as (λ _. Iteration × World) [
                | returned ↦ (returned, o.1)
                | continued n ↦ run_loop env pw fuel n o.1
              ]).1.db
      by_iteration (returned, v) s k = s
      by_iteration (continued n, v) s k = SameLedger-trans s (k n)

-- On a consistent ledger, while no other session writes, the worker changes no account, no
-- transaction and no posting, however many iterations it runs, whatever calls fail, and whenever it
-- is told to stop: only cursors move.
pub run-SameLedger :
    (env : Env) (pw : PostingWorker) (fuel : ℕ) (w v : World) (i : Iteration)
    → IsQuiet env
    → IsConsistent w.db
    → run env pw fuel w ≡ (i, v)
    → SameLedger w.db v.db
unfolding run
run-SameLedger env pw fuel w v i quiet c h =
    subst (λ o. SameLedger w.db o.1.db) h
      (by_test (λ u. SameLedger w.db u.db) pw.has_cursor _ _
        (loop-SameLedger env quiet pw fuel 0 w c) (SameLedger-of-eq refl))
