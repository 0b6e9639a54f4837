-- ===== src/World/State.antt =====
-- The state of a run.
use high_load_ledger.Prelude.{ℕ, List}
use high_load_ledger.Prelude.Int.{ℤ}
use high_load_ledger.Entity.{Uuid, Transaction}
use high_load_ledger.Store.{Tables}

-- The transaction that is open on the connection: its view of the tables, or its failure, after
-- which Postgres takes no statement but ROLLBACK.
pub data Session : Type 0 where
  closed aborted : Session
  active : Tables → Session

-- `entity.CustomTx`, which is `any`: nil, a value of another type, or a pgx.Tx.
pub data CustomTx : Type 0 where
  nil_tx foreign_tx pgx_tx : CustomTx

-- The keys of the cache, `balance:…`, `currency:…` and `transaction:…`.
pub data CacheKey : Type 0 where
  balance_key currency_key transaction_key : Uuid → CacheKey

-- The texts that stand under the keys: a number in decimal, a transaction in JSON, anything else.
pub data CacheValue : Type 0 where
  decimal : ℤ → CacheValue
  json : Transaction → CacheValue
  unreadable : CacheValue

-- The label of the counter `transfer_total`.
pub data TransferStatus : Type 0 where
  success validation_error currency_mismatch_status insufficient_funds_status : TransferStatus
  system_error : TransferStatus

pub record World : Type 0 where
  -- the committed tables
  pub db : Tables
  pub session : Session
  pub cache : List (CacheKey × CacheValue)
  -- transactions that have been handed to a publishing goroutine, newest first
  pub published : List Transaction
  -- `transfer_total`, newest first
  pub transfers : List TransferStatus
  -- `balance_corrections_total`
  pub corrections : ℕ
  -- the number of calls so far
  pub clock : ℕ
