-- ===== src/Worker/Defs.antt =====
-- `PostingWorker` and its methods. A worker's name is a number, 0 for the empty text.
use high_load_ledger.Prelude.{
  ℕ, zero, suc, Bool, true, false, not, Option, none, some, List, [], ◌∷◌, ltb, leb, ◌==◌,
  if◌then◌else◌,
}
use high_load_ledger.Prelude.Int.{negsuc, ℤ, pos, pos_part, leb_ℤ, eq_ℤ}
use high_load_ledger.Entity.{Uuid, Error, DriverError, canceled, driver, worker_name_required}
use high_load_ledger.Result.{Result, ok, err}
use high_load_ledger.World.{Env, World, M, ◌>>=◌, ◌>>◌, pure}
use high_load_ledger.Postgres.{
  pool_querier, tx_querier, get_postings_sum, get_account_balance_snapshot,
  apply_balance_correction, get_cursor_position, get_active_accounts, update_cursor_position,
  read_write,
}

abbrev pub default_posting_batch_size : ℕ
default_posting_batch_size = 100

-- 5 seconds, in nanoseconds
abbrev pub default_backoff : ℕ
default_backoff = 5_000_000_000

abbrev pub max_balance_version_steps : ℕ
max_balance_version_steps = 8

pub record PostingWorker : Type 0 where
  -- the two fields that can be nil
  pub has_cursor : Bool
  pub has_metrics : Bool
  pub worker_name : ℕ
  pub batch_size : ℕ
  pub backoff_time : ℕ

-- `NewPostingWorker`
unfoldable pub new_posting_worker : Bool → Bool → ℕ → ℤ → ℤ → Result PostingWorker
new_posting_worker has_cursor has_metrics worker_name batch_size backoff =
    if worker_name == 0
    then err worker_name_required
    else ok (record {
      has_cursor = has_cursor;
      has_metrics = has_metrics;
      worker_name = worker_name;
      batch_size =
          if leb_ℤ batch_size (pos 0) then default_posting_batch_size else pos_part batch_size;
      backoff_time = if leb_ℤ backoff (pos 0) then default_backoff else pos_part backoff;
    })

-- `w.metrics.RecordBalanceCorrection()`, if there are metrics
unfoldable pub record_balance_correction : Bool → M (Unit {0})
record_balance_correction true w = (ok tt, record w { corrections = suc w.corrections })
record_balance_correction false w = (ok tt, w)

-- `ctx.Err()`
abbrev pub context_result : Option DriverError → Result (Unit {0})
context_result none = ok tt
context_result (some e) = err (driver e)

-- Whether the context is done: `case <-ctx.Done()`
abbrev pub is_done : Option DriverError → Bool
is_done none = false
is_done (some e) = true

-- `errors.Is(err, context.Canceled)`
abbrev pub is_canceled : Error → Bool
is_canceled (driver canceled) = true
is_canceled _ = false

-- How an iteration of `Run` ends: it returns, or it goes on with `lastCommittedUpper`.
pub data Iteration : Type 0 where
  returned : Iteration
  continued : ℕ → Iteration

module _ (env : Env) where
  unfoldable pub context_err : M (Unit {0})
  context_err w = (context_result (env.context_error w.clock), w)

  -- What runs in the transaction of `correctBalance`.
  unfoldable pub correction : Bool → Uuid → M (Unit {0})
  unfolding record_balance_correction
  correction has_metrics id = do
    full_sum ← get_postings_sum env tx_querier id 0
    apply_balance_correction env tx_querier id full_sum
    record_balance_correction has_metrics

  -- `correctBalance`
  unfoldable pub correct_balance : Bool → Uuid → M (Unit {0})
  unfolding correction
  correct_balance has_metrics id = read_write env (correction has_metrics id)

  -- The loop of `ValidateBalance`, with the steps that are left and `effectiveMax`.
  unfoldable pub version_steps : Bool → Uuid → ℕ → ℕ → M (Unit {0})
  unfolding context_err correct_balance
  version_steps has_metrics id zero effective_max = correct_balance has_metrics id
  version_steps has_metrics id (suc steps) effective_max = do
    context_err
    snapshot ← get_account_balance_snapshot env pool_querier id
    let upper = if ltb effective_max snapshot.1 then snapshot.1 else effective_max
    postings_sum ← get_postings_sum env pool_querier id upper
    if eq_ℤ postings_sum snapshot.0 then pure tt else (do
      refreshed ← get_account_balance_snapshot env pool_querier id
      let again = version_steps has_metrics id steps refreshed.1
      if ltb upper refreshed.1 then again else correct_balance has_metrics id)

  -- `ValidateBalance`
  unfoldable pub validate_balance : PostingWorker → Uuid → ℕ → M (Unit {0})
  unfolding version_steps
  validate_balance pw id batch_max_id =
      version_steps pw.has_metrics id max_balance_version_steps batch_max_id

  -- `waitBackoff`: whether the timer fired before the context was done
  unfoldable pub wait_backoff : World → Bool × World
  wait_backoff w = (not (is_done (env.context_error w.clock)), record w { clock = suc w.clock })

  -- `if !w.waitBackoff(…) { return }; continue`
  unfoldable pub back_off : ℕ → World → Iteration × World
  unfolding wait_backoff
  back_off last w =
      let (fired, w') = wait_backoff w in (if fired then continued last else returned, w')

  -- `for _, id := range users`: false if the context was cancelled, other errors are only logged
  unfoldable pub validate_users : PostingWorker → List Uuid → ℕ → World → Bool × World
  unfolding validate_balance
  validate_users pw [] upper w = (true, w)
  validate_users pw (id ∷ users) upper w =
      let (r, w') = validate_balance pw id upper w in
      elim r [
        | ok _ ↦ validate_users pw users upper w'
        | err e ↦
            let rest = validate_users pw users upper w' in
            if is_canceled e then (false, w') else rest
      ]

  -- The end of a batch: the cursor moves to its upper limit.
  unfoldable pub commit_batch : PostingWorker → ℕ → ℕ → World → Iteration × World
  unfolding back_off
  commit_batch pw last upper w =
      let (r, w') = update_cursor_position env pw.worker_name upper w in
      elim r [ ok _ ↦ (continued upper, w') | err e ↦ back_off last w' ]

  unfoldable pub check_users : PostingWorker → ℕ → List Uuid → ℕ → World → Iteration × World
  unfolding validate_users commit_batch
  check_users pw last users upper w =
      let (going, w') = validate_users pw users upper w in
      if going then commit_batch pw last upper w' else (returned, w')

  -- No position is as small as a negative limit.
  unfoldable pub check_batch : PostingWorker → ℕ → ℕ × ℤ → World → Iteration × World
  unfolding check_users
  check_batch pw last (position, negsuc _) w = back_off last w
  check_batch pw last (position, pos upper) w =
      if leb upper position
      then back_off last w
      else (let (r, w') = get_active_accounts env position upper w in
          elim r [ ok users ↦ check_users pw last users upper w' | err e ↦ back_off last w' ])

  -- `case <-ctx.Done()`: the last upper limit is saved once more
  unfoldable pub shut_down : PostingWorker → ℕ → World → Iteration × World
  shut_down pw last w =
      if ltb 0 last
      then (returned, (update_cursor_position env pw.worker_name last w).1)
      else (returned, w)

  -- One iteration of the loop of `Run`.
  unfoldable pub run_once : PostingWorker → ℕ → World → Iteration × World
  unfolding shut_down check_batch
  run_once pw last w =
      if is_done (env.context_error w.clock)
      then shut_down pw last w
      else (let (r, w') = get_cursor_position env pw.worker_name pw.batch_size w in
          elim r [ ok limits ↦ check_batch pw last limits w' | err e ↦ back_off last w' ])

  -- At most `fuel` iterations of `Run`, which has no bound of its own.
  unfoldable pub run_loop : PostingWorker → ℕ → ℕ → World → Iteration × World
  unfolding run_once
  run_loop pw zero last w = (continued last, w)
  run_loop pw (suc fuel) last w =
      let (i, w') = run_once pw last w in
      elim i [ returned ↦ (returned, w') | continued last' ↦ run_loop pw fuel last' w' ]

  -- `Run`
  unfoldable pub run : PostingWorker → ℕ → World → Iteration × World
  unfolding run_loop
  run pw fuel w = if pw.has_cursor then run_loop pw fuel 0 w else (returned, w)
