-- ===== src/Worker/Tests.antt =====
-- The worker on the sample tables, and on tables with a wrong balance.
use high_load_ledger.Prelude.{
  ◌≤◌, ℕ, map, ◌==◌, if◌then◌else◌, arith, some, ◌≡◌, refl, true, [], ◌∷◌, ◌⊎◌,
}
use high_load_ledger.Entity.{Account}
use high_load_ledger.Result.{Result, ok}
use high_load_ledger.World.{Env, World}
use high_load_ledger.Samples.{
  calm-IsReliable, two_accounts-IsConsistent, calm-IsQuiet, account_row, two_accounts, machinery,
  calm, first_world,
}
use high_load_ledger.Worker.Defs.{
  new_posting_worker, Iteration, continued, PostingWorker, run, validate_balance,
}
use high_load_ledger.Store.Rows.{
  postings_sum, put_cursor, max_posting, find_cursor, insert_distinct, active_accounts,
  latest_posting, find_account,
}
use high_load_ledger.Worker.Loop.{run-SameLedger, SameLedger}
use high_load_ledger.Store.{Tables}
use high_load_ledger.Worker.Results.{
  validate_balance_ok, validate_balance_safe, validate_balance_settled,
}
use high_load_ledger.Worker.Validation.{Repaired}
use high_load_ledger.Postgres.{
  update_balance_from_context, apply_balance_correction, read_write, update_cursor_position,
  get_active_accounts, get_postings_sum, get_account_balance_snapshot, get_cursor_position,
}
use high_load_ledger.Store.Statements.{correct}
use high_load_ledger.Prelude.Int.{pos}
use high_load_ledger.Worker.Limits.{position}
use high_load_ledger.Worker.Progress.{run_catches_up}

abbrev worker : PostingWorker
worker = record {
  has_cursor = true;
  has_metrics = true;
  worker_name = 5;
  batch_size = 100;
  backoff_time = 1;
}

-- Account 11 has 90 instead of 100.
abbrev wrong_tables : Tables
wrong_tables = record two_accounts { accounts = account_row 11 90 1 ∷ account_row 12 50 2 ∷ [] }

abbrev wrong_world : World
wrong_world = record first_world { db = wrong_tables }

unfoldable validated : World → Result (Unit {0}) × World
unfolding machinery validate_balance get_account_balance_snapshot get_postings_sum read_write
    apply_balance_correction update_balance_from_context correct
validated w = validate_balance calm worker 11 2 w

abbrev right_after : World
unfolding validated
right_after = (validated first_world).1

right_run : validate_balance calm worker 11 2 first_world ≡ (ok tt, right_after)
unfolding validated high_load_ledger.Store.Rows.postings_sum_to
right_run = refl

validate_balance_settled_example : right_after.db ≡ two_accounts
validate_balance_settled_example =
    validate_balance_settled calm worker 11 2 first_world right_after (ok tt) calm-IsQuiet
      two_accounts-IsConsistent right_run

abbrev repaired_world : World
unfolding validated
repaired_world = (validated wrong_world).1

wrong_run : validate_balance calm worker 11 2 wrong_world ≡ (ok tt, repaired_world)
unfolding validated high_load_ledger.Store.Rows.postings_sum_to postings_sum
wrong_run = refl

validate_balance_safe_example :
    (repaired_world.db ≡ wrong_tables)
    ⊎ Repaired 11 (account_row 11 90 1) wrong_tables repaired_world.db
unfolding find_account
validate_balance_safe_example =
    validate_balance_safe calm worker 11 2 wrong_world repaired_world (account_row 11 90 1) (ok tt)
      calm-IsQuiet refl wrong_run

validate_balance_ok_example :
    (row : Account) × (find_account 11 repaired_world.db.accounts ≡ some row)
    × (row.balance ≡ postings_sum 11 repaired_world.db.postings)
unfolding find_account latest_posting
validate_balance_ok_example =
    validate_balance_ok calm worker 11 2 wrong_world repaired_world (account_row 11 90 1)
      calm-IsQuiet refl (omega arith) wrong_run

unfoldable twice : World → Iteration × World
unfolding validated run get_cursor_position get_active_accounts update_cursor_position
    insert_distinct active_accounts find_cursor max_posting put_cursor
twice w = run calm worker 2 w

abbrev run_after : World
unfolding twice
run_after = (twice first_world).1

run_twice : run calm worker 2 first_world ≡ (continued 2, run_after)
unfolding twice high_load_ledger.Store.Rows.postings_sum_to
run_twice = refl

run-SameLedger_example : SameLedger two_accounts run_after.db
run-SameLedger_example =
    run-SameLedger calm worker 2 first_world run_after (continued 2) calm-IsQuiet
      two_accounts-IsConsistent run_twice

-- Both accounts have a posting in (0, 2].
abbrev listed_world : World
listed_world = record first_world { clock = 1 }

-- Another session commits 5 more for account 11 between the read of the sum and the correction.
abbrev racing : Env
racing = record calm {
  others = λ n t.
      if n == 6
      then record t {
        accounts = account_row 11 95 3 ∷ account_row 12 50 2 ∷ [];
        postings =
            record { id = 3; transaction_id = 0; account_id = 11; amount = pos 5 } ∷ t.postings;
      }
      else t;
}

abbrev raced : World
unfolding validated
raced = (validate_balance racing worker 11 2 wrong_world).1

-- The correction sets the sum that it read before.
correction_race :
    (map (λ a. a.balance) raced.db.accounts ≡ pos 100 ∷ pos 50 ∷ [])
    × (postings_sum 11 raced.db.postings ≡ pos 105)
unfolding raced high_load_ledger.Store.Rows.postings_sum_to postings_sum
correction_race = (refl, refl)

made_worker : new_posting_worker true true 5 (pos 100) (pos 1) ≡ ok worker
unfolding new_posting_worker
made_worker = refl

run_catches_up_example :
    let (i, v) = run calm worker 2 first_world in
    ((last : ℕ) × (i ≡ continued last)) × (2 ≤ position 5 v.db)
unfolding max_posting find_cursor
run_catches_up_example =
    run_catches_up calm true 5 (pos 100) (pos 1) worker 2 first_world calm-IsReliable (λ n. refl)
      two_accounts-IsConsistent made_worker (omega arith) (omega arith)
