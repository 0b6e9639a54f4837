-- ===== src/Accounts/Defs.antt =====
-- `AccountUseCase` and its methods.
use high_load_ledger.Prelude.{[], ◌∷◌, if◌then◌else◌}
use high_load_ledger.Prelude.Int.{ℤ, pos, eq_ℤ, ltb_ℤ}
use high_load_ledger.Entity.{
  Uuid, Time, Currency, currency_unspecified, Account, Posting, Transaction, invalid_currency,
  missing_posting_id,
}
use high_load_ledger.Result.{or_error}
use high_load_ledger.World.{
  Env, M, ◌>>=◌, ◌>>◌, pure, lift, ignore, guard, now, intn, new_v7, CustomTx,
}
use high_load_ledger.Postgres.{
  create_transaction, create_postings, credit_balance, lookup_id, begin_tx, commit_tx, or_rollback,
  get_by_id,
}
use high_load_ledger.Postgres
use high_load_ledger.Redis.{set_account_currency}

-- The row of a new account: its balance comes with the opening posting.
abbrev pub empty_account : Uuid → Currency → Time → Account
empty_account id currency at = record {
  id = id;
  balance = pos 0;
  currency = currency;
  latest_posting_id = 0;
  updated_at = at;
}

abbrev pub opening_transaction : Account → ℤ → Uuid → Uuid → Time → Transaction
opening_transaction acc balance key id at = record {
  id = id;
  from_account_id = acc.id;
  to_account_id = acc.id;
  currency = acc.currency;
  amount = balance;
  idempotency_key = key;
  created_at = at;
}

abbrev pub opening_posting : Transaction → Posting
opening_posting trx = record {
  id = 0;
  transaction_id = trx.id;
  account_id = trx.to_account_id;
  amount = trx.amount;
}

module _ (env : Env) where
  -- The statements of `if balance > 0 { … }`, when the ids of the transaction are there.
  unfoldable pub fund : CustomTx → Transaction → M (Unit {0})
  fund tx trx = do
    create_transaction env tx trx
    ids ← create_postings env tx (opening_posting trx ∷ [])
    posting_id ← lift (or_error (lookup_id trx.to_account_id ids) missing_posting_id)
    credit_balance env tx trx.to_account_id trx.amount posting_id

  -- `if balance > 0 { … }`
  unfoldable pub open_balance : CustomTx → Account → ℤ → M (Unit {0})
  unfolding fund
  open_balance tx acc balance =
      if ltb_ℤ (pos 0) balance
      then (do
        key ← new_v7 env
        id ← new_v7 env
        at ← now env
        fund tx (opening_transaction acc balance key id at))
      else pure tt

  -- What runs under the deferred rollback, up to the commit.
  unfoldable pub write_account : CustomTx → Account → ℤ → M (Unit {0})
  unfolding open_balance
  write_account tx acc balance = do Postgres.create_account env tx acc; open_balance tx acc balance

  unfoldable pub save_account : Account → ℤ → M (Unit {0})
  unfolding write_account
  save_account acc balance = do
    tx ← begin_tx env
    or_rollback env tx (write_account tx acc balance >> commit_tx env tx)

  -- `AccountUseCase.CreateAccount`
  unfoldable pub create_account : Currency → M Uuid
  unfolding save_account
  create_account currency = do
    guard (eq_ℤ currency currency_unspecified) invalid_currency
    id ← new_v7 env
    balance ← intn env 100_000_000
    at ← now env
    save_account (empty_account id currency at) (pos balance)
    ignore (set_account_currency env id currency)
    pure id

  -- `AccountUseCase.GetBalance`
  unfoldable pub get_balance : Uuid → M Account
  get_balance id = get_by_id env id
