-- ===== src/Postgres/Queries.antt =====
-- The methods that read, or that write one statement by themselves: account.go, transaction.go,
-- posting_worker.go and tx_context.go.
use high_load_ledger.Prelude.{
  ℕ, zero, ◌+◌, Option, none, some, List, [], ◌∷◌, ltb, leb, ◌==◌, if◌then◌else◌,
}
use high_load_ledger.Prelude.Int.{ltb_ℤ, ℤ, pos, negsuc, fits_int64}
use high_load_ledger.Entity.{
  Uuid, Currency, Account, Transaction, Posting, DriverError, other, driver, out_of_range,
  account_not_found, transaction_not_found,
}
use high_load_ledger.Result.{Result, ok, err, or_error}
use high_load_ledger.Store.{Tables}
use high_load_ledger.Store.Rows.{
  postings_of, page, find_account, find_transaction, postings_sum, postings_sum_to, max_posting,
  active_accounts, find_cursor, put_cursor,
}
use high_load_ledger.Store.Statements.{correct}
use high_load_ledger.World.{Env, M, ◌>>=◌, pure, lift, now}
use high_load_ledger.Postgres.Driver.{in_tx, on_pool, begin, commit, rollback}
use high_load_ledger.Prelude.Words.{to_int64}

-- A statement that only reads; `QueryRow(…).Scan` with no row is `pgx.ErrNoRows`.
abbrev pub reading : {A : Type 0} → (Tables → A) → Tables → Result (A × Tables)
reading f t = ok (f t, t)

-- SQLSTATE 2201W or 2201X
abbrev pub invalid_row_count : DriverError
invalid_row_count = other 2201

-- A SUM is a NUMERIC; Scan refuses one that is no int64.
abbrev pub scan_sum : ℤ → Result ℤ
scan_sum s = if fits_int64 s then ok s else err (driver out_of_range)

-- SELECT user_id, currency … WHERE user_id = ANY(ids), collected in a map
unfoldable pub currencies_of : List Uuid → List Account → List (Uuid × Currency)
currencies_of [] accounts = []
currencies_of (id ∷ ids) accounts = elim (find_account id accounts) [
  | none ↦ currencies_of ids accounts
  | some row ↦ (id, row.currency) ∷ currencies_of ids accounts
]

unfoldable pub lookup_currency : Uuid → List (Uuid × Currency) → Option Currency
lookup_currency a [] = none
lookup_currency a ((b, c) ∷ cs) = if b == a then some c else lookup_currency a cs

-- `querierFromContext`: the context carries the transaction or it does not.
pub data Querier : Type 0 where
  pool_querier tx_querier : Querier

abbrev pub query : {A : Type 0} → Env → Querier → (Tables → Result (A × Tables)) → M A
query env pool_querier f = on_pool env f
query env tx_querier f = in_tx env f

module _ (env : Env) where
  unfoldable pub get_by_id : Uuid → M Account
  get_by_id id = do
    row ← on_pool env (reading (λ t. find_account id t.accounts))
    lift (or_error row account_not_found)

  unfoldable pub get_currencies : List Uuid → M (List (Uuid × Currency))
  get_currencies [] = pure []
  get_currencies (id ∷ ids) = on_pool env (reading (λ t. currencies_of (id ∷ ids) t.accounts))

  unfoldable pub get_transaction_by_id : Uuid → M Transaction
  get_transaction_by_id id = do
    row ← on_pool env (reading (λ t. find_transaction id t.transactions))
    lift (or_error row transaction_not_found)

  -- A negative number is refused.
  unfoldable pub list_postings_by_account_id : Uuid → ℤ → ℤ → M (List Posting)
  list_postings_by_account_id id (pos limit) (pos offset) =
      on_pool env (reading (λ t. page limit offset (postings_of id t.postings)))
  list_postings_by_account_id id (negsuc limit) offset =
      on_pool env (λ t. err (driver invalid_row_count))
  list_postings_by_account_id id (pos limit) (negsuc offset) =
      on_pool env (λ t. err (driver invalid_row_count))

  -- limit_id = 0 asks for all postings of the account
  unfoldable pub get_postings_sum : Querier → Uuid → ℕ → M ℤ
  get_postings_sum q id limit_id = do
    s ← query env q (
        reading (λ t.
          if ltb 0 limit_id
          then postings_sum_to id limit_id t.postings
          else postings_sum id t.postings))
    lift (scan_sum s)

  unfoldable pub get_balance_from_postings : Uuid → M ℤ
  unfolding get_postings_sum
  get_balance_from_postings id = get_postings_sum pool_querier id 0

  unfoldable pub get_account_balance_snapshot : Querier → Uuid → M (ℤ × ℕ)
  get_account_balance_snapshot q id = do
    found ← query env q (reading (λ t. find_account id t.accounts))
    row ← lift (or_error found account_not_found)
    pure (row.balance, row.latest_posting_id)

  unfoldable pub update_balance_from_context : Querier → Uuid → ℤ → M (Unit {0})
  update_balance_from_context q id amount = do
    at ← now env
    query env q (correct id amount at) >>= λ _. pure tt

  unfoldable pub apply_balance_correction : Querier → Uuid → ℤ → M (Unit {0})
  unfolding update_balance_from_context
  apply_balance_correction q id amount = update_balance_from_context q id amount

  -- cursor + batchSize, a sum of int64, but not above MAX(id)
  unfoldable pub get_cursor_position : ℕ → ℕ → M (ℕ × ℤ)
  unfolding to_int64
  get_cursor_position worker_name batch_size = do
    found ← on_pool env (reading (λ t. find_cursor worker_name t.cursors))
    let cursor = elim found as (λ _. ℕ) [ none ↦ zero | some position ↦ position ]
    max_id ← on_pool env (reading (λ t. max_posting t.postings))
    let upper = to_int64 (pos (cursor + batch_size))
    pure (cursor, if ltb_ℤ (pos max_id) upper then pos max_id else upper)

  unfoldable pub get_active_accounts : ℕ → ℕ → M (List Uuid)
  get_active_accounts last_checked max_id =
      if leb max_id last_checked
      then pure []
      else on_pool env (reading (λ t. active_accounts last_checked max_id t.postings))

  unfoldable pub update_cursor_position : ℕ → ℕ → M (Unit {0})
  update_cursor_position worker_name position =
      on_pool env (λ t. ok (tt, record t { cursors = put_cursor worker_name position t.cursors }))

  -- `ReadWrite`: the function runs in a transaction of its own.
  unfoldable pub read_write : M (Unit {0}) → M (Unit {0})
  read_write fn = begin env >>= λ _ w.
      let (r, w') = fn w in elim r [ ok _ ↦ commit env w' | err e ↦ (err e, (rollback env w').1) ]
