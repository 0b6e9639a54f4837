-- ===== src/Accounts/Tests.antt =====
-- An account is opened in the sample tables.
use high_load_ledger.Prelude.{ℕ, ◌≡◌, refl, []}
use high_load_ledger.Prelude.Int.{pos}
use high_load_ledger.Result.{Result, ok, err}
use high_load_ledger.World.{Env, World}
use high_load_ledger.Samples.{
  calm-NeverLoses, two_accounts-IsConsistent, calm-IsQuiet, two_accounts, machinery, calm,
  first_world,
}
use high_load_ledger.Accounts.Results.{create_account_error, create_account_ok, AccountOpened}
use high_load_ledger.Store.Ledger.{IsConsistent}
use high_load_ledger.Entity.{Uuid, invalid_currency}
use high_load_ledger.Accounts.Consistency.{create_account-IsConsistent}
use high_load_ledger.Accounts.Defs.{create_account, fund, open_balance, write_account, save_account}

unfoldable run : Env → ℕ → World → Result Uuid × World
unfolding machinery create_account save_account write_account open_balance fund
run env c w = create_account env (pos c) w

abbrev opened : World
unfolding run
opened = (run calm 1 first_world).1

opened_run : create_account calm (pos 1) first_world ≡ (ok 1000, opened)
unfolding run high_load_ledger.World.intn high_load_ledger.Store.Statements.insert_account
opened_run = refl

create_account_ok_example :
    (call : ℕ) × AccountOpened (pos 1) 1000 7 first_world.db opened.db × (opened.published ≡ [])
create_account_ok_example =
    create_account_ok calm (pos 1) first_world opened 1000 calm-IsQuiet opened_run

abbrev refused_world : World
unfolding run
refused_world = (run calm 0 first_world).1

refused_run : create_account calm (pos 0) first_world ≡ (err invalid_currency, refused_world)
unfolding run
refused_run = refl

create_account_error_example : (refused_world.db ≡ two_accounts) × (refused_world.published ≡ [])
create_account_error_example =
    create_account_error calm (pos 0) first_world refused_world invalid_currency calm-IsQuiet
      calm-NeverLoses refused_run

create_account-IsConsistent_example : IsConsistent opened.db
create_account-IsConsistent_example =
    create_account-IsConsistent calm (pos 1) first_world opened (ok 1000)
      (record { keeps = λ _ _ _ _ l. l }) opened_run two_accounts-IsConsistent
