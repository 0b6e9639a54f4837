-- ===== src/Transfer/Tests.antt =====
-- A transfer between two accounts of 100 and 50, run in several environments.
use mathlib.Core.List.{Memᴰ}
use high_load_ledger.Prelude.{
  ◌+◌, List, ◌⊎◌, arith, inl, refl, [], ◌∷◌, ◌==◌, ◌≡◌, if◌then◌else◌, ℕ, true,
}
use high_load_ledger.Prelude.Int.{◌+ℤ◌, pos}
use high_load_ledger.Entity.{
  insufficient_funds, other, driver, Error, Time, is_valid, Uuid, TransactionRequest,
}
use high_load_ledger.Result.{ok, err, Result}
use high_load_ledger.World.{fine, insufficient_funds_status, lost, Env, World}
use high_load_ledger.Transfer.Defs.{
  new_transaction, write_transfer, validate_transfer_currencies, validate_request, transfer_status,
  transfer_in_tx, transfer, record_transfer, publish, finish_transfer, balance_ops, apply_op,
  fill_currency, complete_currencies, TransferUseCase, transaction,
}
use high_load_ledger.Samples.{
  calm-IsReliable, account_row, calm-NeverLoses, calm-IsQuiet, two_accounts,
  two_accounts-IsConsistent, first_world, env_with, calm, machinery,
}
use high_load_ledger.Store.Ledger.{IsConsistent}
use high_load_ledger.Store.Rows.{has_posting, has_transaction, find_account, has_key}
use high_load_ledger.Transfer.Consistency.{transaction-IsConsistent}
use high_load_ledger.Transfer.Effect.{Transferred}
use high_load_ledger.Transfer.Atomicity.{transaction_error, transaction_ok, transaction_key_used}
use high_load_ledger.Transfer.Completed.{transaction_succeeds}
use high_load_ledger.Redis.{cache_get}
use high_load_ledger.Transfer.Success.{IsFeasible}
use high_load_ledger.Transfer.Total.{transaction-total, total_balance}
use high_load_ledger.Transfer.Spec.{Applied, Steps}
use high_load_ledger.Transfer.Refines.{losses, run_all, run_all-moves_once, run_all-refines, book}
use high_load_ledger.Transfer.Guarantee.{transaction-concurrent, statements, Commit, commit_all}
use high_load_ledger.Transfer.Run.{op_update}

abbrev pub use_case : TransferUseCase
use_case = record { has_publisher = true; has_metrics = true }

abbrev pub request : ℕ → TransactionRequest
request amount = record {
  idempotency_key = 77;
  from_account_id = 12;
  to_account_id = 11;
  currency = pos 1;
  amount = pos amount;
}

unfoldable run : Env → TransactionRequest → World → Result Uuid × World
unfolding machinery transaction is_valid complete_currencies fill_currency apply_op balance_ops
    finish_transfer publish record_transfer transfer transfer_in_tx transfer_status validate_request
    validate_transfer_currencies write_transfer
run env req w = transaction env use_case req w

abbrev after_30 : World
unfolding run
after_30 = (run calm (request 30) first_world).1

moved_30 : transaction calm use_case (request 30) first_world ≡ (ok 1006, after_30)
unfolding run
moved_30 = refl

transaction_ok_example :
    (at : Time) × Transferred (request 30) 1006 at first_world.db after_30.db
    × (after_30.published ≡ new_transaction (request 30) 1006 at ∷ [])
transaction_ok_example =
    transaction_ok calm use_case (request 30) first_world after_30 1006 calm-IsQuiet moved_30

-- The account 12 has 50.
abbrev after_60 : World
unfolding run
after_60 = (run calm (request 60) first_world).1

refused_60 : transaction calm use_case (request 60) first_world ≡ (err insufficient_funds, after_60)
unfolding run
refused_60 = refl

transaction_error_example : (after_60.db ≡ two_accounts) × (after_60.published ≡ [])
transaction_error_example =
    transaction_error calm use_case (request 60) first_world after_60 insufficient_funds
      calm-IsQuiet calm-NeverLoses refused_60

-- The second call with the key of the first one; the answer to its INSERT is lost.
abbrev unlucky : Env
unlucky = env_with λ n. if n == 21 then lost (other 3) else fine

abbrev second : Result Uuid × World
unfolding run
second = run unlucky (request 10) after_30

second_run : transaction unlucky use_case (request 10) after_30 ≡ second
unfolding run
second_run = refl

transaction_key_used_example :
    (e : Error) × (second.0 ≡ err e)
    × (second.1.db ≡ after_30.db)
    × (second.1.published ≡ after_30.published)
unfolding has_key after_30
transaction_key_used_example =
    transaction_key_used unlucky use_case (request 10) after_30 second.1 second.0
      (record { alone = λ _ _. refl }) refl second_run

counted_60 : after_60.transfers ≡ insufficient_funds_status ∷ []
unfolding run
counted_60 = refl

-- The commit takes place, but its answer is lost.
abbrev silent : Env
silent = env_with λ n. if n == 14 then lost (other 3) else fine

abbrev unanswered : World
unfolding run
unanswered = (run silent (request 30) first_world).1

unanswered_run :
    transaction silent use_case (request 30) first_world ≡ (err (driver (other 3)), unanswered)
unfolding run
unanswered_run = refl

transaction-IsConsistent_example : IsConsistent unanswered.db
transaction-IsConsistent_example =
    transaction-IsConsistent silent use_case (request 30) first_world unanswered
      (err (driver (other 3))) (record { keeps = λ _ _ _ _ l. l }) unanswered_run
      two_accounts-IsConsistent

IsFeasible-30 : IsFeasible calm (request 30) first_world
unfolding validate_request is_valid find_account has_transaction has_key has_posting cache_get ◌+ℤ◌
IsFeasible-30 = record {
  valid = refl;
  source = account_row 12 50 2;
  target = account_row 11 100 1;
  source_found = refl;
  target_found = refl;
  source_currency = refl;
  target_currency = refl;
  source_cached = inl refl;
  target_cached = inl refl;
  source_fits = refl;
  target_not_negative = omega arith;
  covered = omega arith;
  room = refl;
  new_key = refl;
  new_id = λ n id e. refl;
  new_posting = λ n k. ground arith;
  posting_ids_apart = λ n e. omega (arith, e);
}

transaction_succeeds_example :
    (id : Uuid) × (v : World) × (transaction calm use_case (request 30) first_world ≡ (ok id, v))
    × ((at : Time) × Transferred (request 30) id at two_accounts v.db)
transaction_succeeds_example =
    transaction_succeeds calm-IsReliable (request 30) first_world IsFeasible-30 use_case

transaction-total_example :
    total_balance unanswered.db.accounts ≡ total_balance two_accounts.accounts
transaction-total_example =
    transaction-total silent use_case (request 30) first_world unanswered (err (driver (other 3)))
      (record { keeps_total = λ n t. refl }) unanswered_run

-- A request whose answer is lost, and its retry.
abbrev retries : List (TransactionRequest × Result Uuid) × World
retries = run_all silent use_case (request 30 ∷ request 30 ∷ []) first_world

run_all-refines_example :
    Steps
      (book two_accounts)
      retries.0
      (losses silent use_case (request 30 ∷ request 30 ∷ []) first_world)
      (book retries.1.db)
run_all-refines_example =
    run_all-refines silent use_case (request 30 ∷ request 30 ∷ []) first_world
      (record { alone = λ _ _. refl })

run_all-moves_once_example :
    (book retries.1.db ≡ book two_accounts)
    ⊎ ((req : TransactionRequest) × (r : Result Uuid) × Memᴰ (req, r) retries.0
        × Applied req (book two_accounts) (book retries.1.db))
run_all-moves_once_example =
    run_all-moves_once silent use_case 77 (request 30 ∷ request 30 ∷ []) first_world
      (record { alone = λ _ _. refl }) (refl, (refl, tt))

-- Another session moves 20 from 11 to 12 while ours moves 60 from 12 to 11, and then its second
-- request fails, for want of money.
abbrev back : ℕ → ℕ → Commit
back key amount = record {
  request = record {
    idempotency_key = key;
    from_account_id = 11;
    to_account_id = 12;
    currency = pos 1;
    amount = pos amount;
  };
  id = 2000 + key;
  created_at = 5;
  nextval = λ k. 500 + key + k;
  first_at = 6;
  second_at = 7;
}

abbrev busy : Env
busy = record calm {
  others = λ n t. commit_all (if n == 8 then back 78 20 ∷ back 79 900 ∷ [] else []) t;
}

abbrev crowded : Result Uuid × World
unfolding run statements op_update
crowded = run busy (request 60) first_world

crowded_run : transaction busy use_case (request 60) first_world ≡ crowded
unfolding run crowded
crowded_run = refl

-- Alone it fails; with the money of the other session it succeeds.
crowded_ok : crowded.0 ≡ ok 1006
unfolding crowded
crowded_ok = refl

transaction-concurrent_example :
    IsConsistent crowded.1.db
    × (total_balance crowded.1.db.accounts ≡ total_balance two_accounts.accounts)
transaction-concurrent_example =
    transaction-concurrent busy use_case (request 60) first_world crowded.1 crowded.0
      (record {
        commits = λ n t. if n == 8 then back 78 20 ∷ back 79 900 ∷ [] else [];
        shape = λ n t. refl;
      })
      crowded_run two_accounts-IsConsistent
