-- ===== src/Store.antt =====
-- The tables of migrations/000001_init_schema.up.sql.
--
-- Its children have the SQL statements that internal/repository/postgres sends, as functions on
-- the tables. Table rows stand newest first; no statement depends on their order but by its
-- ORDER BY.
pub mod Rows
pub mod Statements
pub mod Laws
pub mod Makes
pub mod Ledger
pub mod Opening
use high_load_ledger.Prelude.{ℕ, List}
use high_load_ledger.Entity.{Account, Posting, Transaction}

pub record Tables : Type 0 where
  pub accounts : List Account
  pub transactions : List Transaction
  pub postings : List Posting
  -- ledger.worker_cursors: a worker's name and its position
  pub cursors : List (ℕ × ℕ)
