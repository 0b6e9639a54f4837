-- ===== src/Transfer/Defs.antt =====
-- `TransferUseCase` and its methods.
use high_load_ledger.Prelude.{
  ℕ, zero, Bool, true, false, not, ◌&&◌, Option, none, some, List, [], ◌∷◌, ◌++◌, ltb, ◌==◌,
  if◌then◌else◌,
}
use high_load_ledger.Prelude.Int.{pos, ◌-ℤ◌, leb_ℤ, eq_ℤ}
use high_load_ledger.Entity.{
  Uuid, uuid_nil, Currency, currency_unspecified, is_valid, Transaction, TransactionRequest,
  Posting, invalid_amount, same_account_transfer, empty_idempotency_key, invalid_currency,
  account_not_found, currency_mismatch, insufficient_funds,
}
use high_load_ledger.Result.{Result, ok, err, refuse_if}
use high_load_ledger.Result
use high_load_ledger.World.{
  Env, World, M, ◌>>=◌, ◌>>◌, pure, raise, lift, ignore, guard, now, new_v7, CustomTx,
  TransferStatus, success, validation_error, currency_mismatch_status, insufficient_funds_status,
  system_error,
}
use high_load_ledger.Postgres.{
  create_transaction, create_postings, debit_balance, credit_balance, lookup_id, begin_tx,
  commit_tx, or_rollback, get_currencies, lookup_currency,
}
use high_load_ledger.Redis.{get_account_currency, set_account_currency}

-- The fields that can be nil.
pub record TransferUseCase : Type 0 where
  pub has_publisher : Bool
  pub has_metrics : Bool

-- `validateRequest`
unfoldable pub validate_request : TransactionRequest → Result (Unit {0})
validate_request req = Result.◌>>◌ (refuse_if (leb_ℤ req.amount (pos 0)) invalid_amount) (
    Result.◌>>◌ (refuse_if (req.from_account_id == req.to_account_id) same_account_transfer) (
      Result.◌>>◌ (refuse_if (req.idempotency_key == uuid_nil) empty_idempotency_key)
        (refuse_if (not (is_valid req.currency)) invalid_currency)))

-- `if v, err := call(); err == nil { x = v }`
abbrev pub or_default : {A : Type 0} → A → M A → M A
or_default a m w = let (r, w') = m w in elim r [ ok b ↦ (ok b, w') | err e ↦ (ok a, w') ]

abbrev pub is_unspecified : Currency → Bool
is_unspecified c = eq_ℤ c currency_unspecified

-- The account's id, if its currency is not known yet.
abbrev pub missing_id : Uuid → Currency → List Uuid
missing_id id c = if is_unspecified c then id ∷ [] else []

module _ (env : Env) where
  -- The currency of one account, from the rows that were read if the cache had none.
  unfoldable pub fill_currency : Uuid → Currency → List (Uuid × Currency) → M Currency
  fill_currency id current currencies =
      if is_unspecified current
      then elim (lookup_currency id currencies) [
        | some c ↦ ignore (set_account_currency env id c) >> pure c
        | none ↦ raise account_not_found
      ]
      else pure current

  unfoldable pub complete_currencies :
      List Uuid → Uuid → Uuid → Currency → Currency → M (Currency × Currency)
  complete_currencies [] from_id to_id c d = pure (c, d)
  complete_currencies (id ∷ ids) from_id to_id c d = do
    currencies ← get_currencies env (id ∷ ids)
    c' ← fill_currency from_id c currencies
    d' ← fill_currency to_id d currencies
    pure (c', d')

  -- `validateTransferCurrencies`
  unfoldable pub validate_transfer_currencies : Uuid → Uuid → Currency → M (Unit {0})
  validate_transfer_currencies from_id to_id currency = do
    c ← or_default currency_unspecified (get_account_currency env from_id)
    d ← or_default currency_unspecified (get_account_currency env to_id)
    found ← complete_currencies (missing_id from_id c ++ missing_id to_id d) from_id to_id c d
    guard (not (eq_ℤ found.0 currency && eq_ℤ found.1 currency)) currency_mismatch

-- `balanceOp`
pub record BalanceOp : Type 0 where
  pub account_id : Uuid
  pub is_debit : Bool

-- The two operations, the lower account id first.
unfoldable pub balance_ops : TransactionRequest → BalanceOp × BalanceOp
balance_ops req =
    let a : BalanceOp = record { account_id = req.from_account_id; is_debit = true } in
    let b : BalanceOp = record { account_id = req.to_account_id; is_debit = false } in
    if ltb b.account_id a.account_id then (b, a) else (a, b)

-- `m[k]` of a map without k is 0.
abbrev pub or_zero : Option ℕ → ℕ
or_zero none = zero
or_zero (some n) = n

-- The two rows of the journal.
abbrev pub transfer_postings : Transaction → TransactionRequest → List Posting
transfer_postings trx req =
    record {
      id = 0;
      transaction_id = trx.id;
      account_id = req.from_account_id;
      amount = pos 0 -ℤ req.amount;
    }
    ∷ record {
      id = 0;
      transaction_id = trx.id;
      account_id = req.to_account_id;
      amount = req.amount;
    }
    ∷ []

abbrev pub new_transaction : TransactionRequest → Uuid → ℕ → Transaction
new_transaction req id at = record {
  id = id;
  from_account_id = req.from_account_id;
  to_account_id = req.to_account_id;
  currency = req.currency;
  amount = req.amount;
  idempotency_key = req.idempotency_key;
  created_at = at;
}

-- The deferred `switch` on the error.
unfoldable pub transfer_status : {A : Type 0} → Result A → TransferStatus
transfer_status (ok a) = success
transfer_status (err invalid_amount) = validation_error
transfer_status (err same_account_transfer) = validation_error
transfer_status (err empty_idempotency_key) = validation_error
transfer_status (err invalid_currency) = validation_error
transfer_status (err currency_mismatch) = currency_mismatch_status
transfer_status (err insufficient_funds) = insufficient_funds_status
transfer_status (err _) = system_error

-- `t.metrics.RecordTransfer(status)`, if there are metrics
unfoldable pub record_transfer : Bool → TransferStatus → World → World
record_transfer true s w = record w { transfers = s ∷ w.transfers }
record_transfer false s w = w

-- `go func(trx) { … }(trx)`, if there is a publisher
unfoldable pub publish : Bool → Transaction → World → World
publish true trx w = record w { published = trx ∷ w.published }
publish false trx w = w

module _ (env : Env) where
  unfoldable pub apply_op :
      CustomTx → TransactionRequest → List (Uuid × ℕ) → BalanceOp → M (Unit {0})
  apply_op tx req ids op =
      let posting_id = or_zero (lookup_id op.account_id ids) in
      if op.is_debit
      then debit_balance env tx op.account_id req.amount posting_id
      else credit_balance env tx op.account_id req.amount posting_id

  -- Steps 5 to 8: the rows of the transaction, up to the commit.
  unfoldable pub write_transfer : CustomTx → TransactionRequest → Transaction → M (Unit {0})
  unfolding apply_op balance_ops
  write_transfer tx req trx = do
    create_transaction env tx trx
    ids ← create_postings env tx (transfer_postings trx req)
    apply_op tx req ids (balance_ops req).0
    apply_op tx req ids (balance_ops req).1

  -- Step 9 and the publishing.
  unfoldable pub finish_transfer : TransferUseCase → CustomTx → Transaction → M Uuid
  unfolding publish
  finish_transfer uc tx trx = do commit_tx env tx; λ w. (ok trx.id, publish uc.has_publisher trx w)

  -- What runs under the deferred rollback.
  unfoldable pub transfer_in_tx : TransferUseCase → TransactionRequest → CustomTx → M Uuid
  unfolding write_transfer finish_transfer
  transfer_in_tx uc req tx = do
    id ← new_v7 env
    at ← now env
    let trx = new_transaction req id at
    write_transfer tx req trx
    finish_transfer uc tx trx

  unfoldable pub transfer : TransferUseCase → TransactionRequest → M Uuid
  unfolding validate_request validate_transfer_currencies transfer_in_tx or_rollback
  transfer uc req = do
    lift (validate_request req)
    validate_transfer_currencies env req.from_account_id req.to_account_id req.currency
    tx ← begin_tx env
    or_rollback env tx (transfer_in_tx uc req tx)

  -- `TransferUseCase.Transaction`
  unfoldable pub transaction : TransferUseCase → TransactionRequest → M Uuid
  unfolding transfer record_transfer transfer_status
  transaction uc req w =
      let (r, w') = transfer uc req w in (r, record_transfer uc.has_metrics (transfer_status r) w')
