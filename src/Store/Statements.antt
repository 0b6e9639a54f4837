-- ===== src/Store/Statements.antt =====
-- The writing statements of internal/repository/postgres under the constraints of the schema:
-- primary keys, UNIQUE, REFERENCES, CHECK and the range of BIGINT. Constraints of a row come
-- before unique keys, and foreign keys at the end of the statement.
use high_load_ledger.Prelude.{◌*◌, ◌/◌, ℕ, not, ◌&&◌, none, some, List, [], ◌∷◌, ltb, if◌then◌else◌}
use high_load_ledger.Prelude.Int.{ℤ, pos, ◌+ℤ◌, ◌-ℤ◌, ltb_ℤ, leb_ℤ, fits_int64}
use high_load_ledger.Entity.{
  Uuid, Time, Account, Posting, Transaction, driver, unique_violation, foreign_key_violation,
  check_violation, out_of_range,
}
use high_load_ledger.Result.{Result, ok, ◌>>=◌, ◌>>◌, refuse_if}
use high_load_ledger.Store.{Tables}
use high_load_ledger.Store.Rows.{
  find_account, put_account, has_account, has_transaction, has_key, has_posting, latest_posting,
}

-- INSERT INTO ledger.accounts
unfoldable pub insert_account : Account → Tables → Result Tables
insert_account a t = do
  refuse_if (ltb_ℤ a.balance (pos 0)) (driver check_violation)
  refuse_if (has_account a.id t.accounts) (driver unique_violation)
  ok (record t { accounts = a ∷ t.accounts })

-- A TIMESTAMPTZ keeps the microseconds of a time.
abbrev pub stored_row : Transaction → Transaction
stored_row tr = record tr { created_at = tr.created_at / 1000 * 1000 }

-- INSERT INTO ledger.transactions
unfoldable pub insert_transaction : Transaction → Tables → Result Tables
insert_transaction tr t = do
  refuse_if (leb_ℤ tr.amount (pos 0)) (driver check_violation)
  refuse_if (has_transaction tr.id t.transactions) (driver unique_violation)
  refuse_if (has_key tr.idempotency_key t.transactions) (driver unique_violation)
  refuse_if
      (not (has_account tr.from_account_id t.accounts && has_account tr.to_account_id t.accounts))
      (driver foreign_key_violation)
  ok (record t { transactions = stored_row tr ∷ t.transactions })

-- one row of INSERT INTO ledger.postings, with the id that the sequence gave it
unfoldable pub insert_posting : Posting → Tables → Result Tables
insert_posting p t = do
  refuse_if (has_posting p.id t.postings) (driver unique_violation)
  refuse_if
      (not (has_transaction p.transaction_id t.transactions && has_account p.account_id t.accounts))
      (driver foreign_key_violation)
  ok (record t { postings = p ∷ t.postings })

-- INSERT INTO ledger.postings VALUES …, …
unfoldable pub insert_postings : List Posting → Tables → Result Tables
insert_postings [] t = ok t
insert_postings (p ∷ ps) t = insert_posting p t >>= insert_postings ps

-- UPDATE ledger.accounts: the new amount must be a BIGINT that is not negative
unfoldable pub update_account : Account → ℤ → ℕ → Time → Tables → Result (ℕ × Tables)
update_account row amount latest now t = do
  refuse_if (not (fits_int64 amount)) (driver out_of_range)
  refuse_if (ltb_ℤ amount (pos 0)) (driver check_violation)
  let row' = record row { balance = amount; latest_posting_id = latest; updated_at = now }
  ok (1, record t { accounts = put_account row' t.accounts })

-- GREATEST(a, b)
unfoldable pub greatest : ℕ → ℕ → ℕ
greatest a b = if ltb a b then b else a

-- the UPDATE of DebitBalance
unfoldable pub debit : Uuid → ℤ → ℕ → Time → Tables → Result (ℕ × Tables)
unfolding update_account greatest
debit id amount posting_id now t = elim (find_account id t.accounts) [
  | none ↦ ok (0, t)
  | some row ↦
      if leb_ℤ amount row.balance
      then update_account row (row.balance -ℤ amount) (greatest row.latest_posting_id posting_id)
          now t
      else ok (0, t)
]

-- the UPDATE of CreditBalance
unfoldable pub credit : Uuid → ℤ → ℕ → Time → Tables → Result (ℕ × Tables)
unfolding update_account greatest
credit id amount posting_id now t = elim (find_account id t.accounts) [
  | none ↦ ok (0, t)
  | some row ↦
      update_account row (row.balance +ℤ amount) (greatest row.latest_posting_id posting_id) now t
]

-- the UPDATE of UpdateBalanceFromContext
unfoldable pub correct : Uuid → ℤ → Time → Tables → Result (ℕ × Tables)
unfolding update_account
correct id amount now t = elim (find_account id t.accounts) [
  | none ↦ ok (0, t)
  | some row ↦ update_account row amount (latest_posting id t.postings) now t
]
