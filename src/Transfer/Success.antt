-- ===== src/Transfer/Success.antt =====
-- When a transfer goes through: what it needs of the tables, the cache and the ids, and the balance
-- updates in either order.
use high_load_ledger.Prelude.{
  ==_self, ℕ, Bool, true, false, ◌≡◌, ◌≢◌, refl, sym, ◌∙◌, some, List, ◌∷◌, arith,
}
use high_load_ledger.Prelude.Int.{pos, ◌+ℤ◌, ◌≤ℤ◌, fits_int64}
use high_load_ledger.Entity.{
  Uuid, Time, Account, Transaction, TransactionRequest, insufficient_funds, account_not_found,
}
use high_load_ledger.Result.{Result, ok}
use high_load_ledger.Store.{Tables}
use high_load_ledger.Store.Rows.{
  find_transaction, find_account, has_transaction, has_key, has_posting,
}
use high_load_ledger.Store.Laws.{UpdatesRow-find_ne, debit_ok, credit_ok}
use high_load_ledger.Store.Makes.{debit_makes, credit_makes}
use high_load_ledger.World.{Env, World, active, pgx_tx}
use high_load_ledger.World.Sure.{IsReliable, Sure}
use high_load_ledger.Postgres.{cast_tx, credit_balance, debit_balance}
use high_load_ledger.Postgres.Sure.{Changes, Ready, update-Sure}
use high_load_ledger.Transfer.Defs.{BalanceOp, apply_op, validate_request}
use high_load_ledger.Transfer.Run.{op_update}
use high_load_ledger.Transfer.Effect.{ordered, debit_op, credit_op}
use high_load_ledger.Transfer.Checked.{IsCoherent}

-- What the tables, the cache and the ids must be like for the request.
pub record IsFeasible (env : Env) (req : TransactionRequest) (w : World) : Type 0 where
  pub valid : validate_request req ≡ ok tt
  pub source : Account
  pub target : Account
  pub source_found : find_account req.from_account_id w.db.accounts ≡ some source
  pub target_found : find_account req.to_account_id w.db.accounts ≡ some target
  pub source_currency : source.currency ≡ req.currency
  pub target_currency : target.currency ≡ req.currency
  pub source_cached : IsCoherent req.from_account_id req.currency w
  pub target_cached : IsCoherent req.to_account_id req.currency w
  -- the balances are BIGINT, and stay so
  pub source_fits : fits_int64 source.balance ≡ true
  pub target_not_negative : pos 0 ≤ℤ target.balance
  pub covered : req.amount ≤ℤ source.balance
  pub room : fits_int64 (target.balance +ℤ req.amount) ≡ true
  -- the key and the ids are new
  pub new_key : has_key req.idempotency_key w.db.transactions ≡ false
  pub new_id :
      (n : ℕ) (id : Uuid) → env.new_v7 n ≡ some id → has_transaction id w.db.transactions ≡ false
  pub new_posting : (n k : ℕ) → has_posting (env.nextval n k) w.db.postings ≡ false
  pub posting_ids_apart : (n : ℕ) → env.nextval n 0 ≢ env.nextval n 1

pub positive_amount :
    (req : TransactionRequest) → validate_request req ≡ ok tt → pos 1 ≤ℤ req.amount
unfolding validate_request
positive_amount req h = ground (arith, h)

-- The two updates find their rows in either order.
module _ (req : TransactionRequest) (ids : List (Uuid × ℕ)) (source target : Account) (t : Tables)
    (ne : req.from_account_id ≢ req.to_account_id)
    (source_found : find_account req.from_account_id t.accounts ≡ some source)
    (target_found : find_account req.to_account_id t.accounts ≡ some target)
    (positive : pos 1 ≤ℤ req.amount) (source_fits : fits_int64 source.balance ≡ true)
    (covered : req.amount ≤ℤ source.balance) (target_not_negative : pos 0 ≤ℤ target.balance)
    (room : fits_int64 (target.balance +ℤ req.amount) ≡ true) where
  debit-Ready :
      (u : Tables)
      → find_account req.from_account_id u.accounts ≡ some source
      → Ready (op_update req ids (debit_op req)) u
  unfolding op_update
  debit-Ready u f at =
      debit_makes req.from_account_id req.amount _ at source u f source_fits positive covered

  credit-Ready :
      (u : Tables)
      → find_account req.to_account_id u.accounts ≡ some target
      → Ready (op_update req ids (credit_op req)) u
  unfolding op_update
  credit-Ready u f at =
      credit_makes req.to_account_id req.amount _ at target u f room target_not_negative positive

  abbrev first_op : Bool → Time → Tables → Result (ℕ × Tables)
  first_op test = op_update req ids (ordered test req).0

  abbrev second_op : Bool → Time → Tables → Result (ℕ × Tables)
  second_op test = op_update req ids (ordered test req).1

  pub ops-Ready :
      (test : Bool)
      → Ready (first_op test) t
        × ((u : Tables) → Changes (first_op test) t u → Ready (second_op test) u)
  unfolding op_update
  ops-Ready true = (
    credit-Ready t target_found,
    λ u (at, e).
        let (row, x) = credit_ok req.to_account_id req.amount _ at 1 t u e refl in
        debit-Ready u (UpdatesRow-find_ne x req.from_account_id ne ∙ source_found),
  )
  ops-Ready false = (
    debit-Ready t source_found,
    λ u (at, e).
        let (row, x, _) = debit_ok req.from_account_id req.amount _ at 1 t u e refl in
        credit-Ready u (UpdatesRow-find_ne x req.to_account_id (λ e. ne (sym e)) ∙ target_found),
  )

module _ {env : Env} (reliable : IsReliable env) (req : TransactionRequest) where
  pub apply_op-Sure :
      (ids : List (Uuid × ℕ)) (op : BalanceOp) (t : Tables) (w : World)
      → w.session ≡ active t
      → Ready (op_update req ids op) t
      → Sure
          (λ _ v. (u : Tables) × Changes (op_update req ids op) t u × (v.session ≡ active u))
          (apply_op env pgx_tx req ids op w)
  unfolding apply_op op_update debit_balance credit_balance cast_tx
  apply_op-Sure ids op t w s ready = by_kind op.is_debit op.account_id ready
    where
      by_kind :
          (b : Bool) (a : Uuid)
          → Ready (op_update req ids (record { account_id = a; is_debit = b })) t
          → Sure
              (λ _ v.
                (u : Tables) × Changes
                  (op_update req ids (record { account_id = a; is_debit = b }))
                  t
                  u
                × (v.session ≡ active u))
              (apply_op env pgx_tx req ids (record { account_id = a; is_debit = b }) w)
      by_kind true a r = update-Sure reliable _ insufficient_funds t w s r
      by_kind false a r = update-Sure reliable _ account_not_found t w s r

pub has_new_transaction :
    (trx : Transaction) (l : List Transaction) → has_transaction trx.id (trx ∷ l) ≡ true
unfolding has_transaction find_transaction
has_new_transaction trx l = let same = ==_self trx.id in rw (same, has_transaction) refl
