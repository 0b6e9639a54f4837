-- ===== src/Postgres/Repository.antt =====
-- The methods that write inside a transaction: account.go, posting.go, transaction.go and common.go.
use high_load_ledger.Prelude.{ℕ, zero, suc, Option, none, some, List, [], ◌∷◌, ◌==◌, if◌then◌else◌}
use high_load_ledger.Prelude.Int.{ℤ}
use high_load_ledger.Entity.{
  Uuid, Account, Posting, Transaction, driver, unique_violation, invalid_tx_type,
  insufficient_funds, account_not_found, idempotency_conflict,
}
use high_load_ledger.Result.{Result, ok, err}
use high_load_ledger.Store.{Tables}
use high_load_ledger.Store.Statements.{
  insert_account, insert_transaction, insert_postings, debit, credit,
}
use high_load_ledger.World.{
  Env, M, ◌>>=◌, ◌>>◌, pure, lift, guard, now, CustomTx, nil_tx, foreign_tx, pgx_tx,
}
use high_load_ledger.Postgres.Driver.{in_tx, begin, commit, rollback}

unfoldable pub cast_tx : CustomTx → Result (Unit {0})
cast_tx nil_tx = err invalid_tx_type
cast_tx foreign_tx = err invalid_tx_type
cast_tx pgx_tx = ok tt

-- The result set of a statement that returns none.
abbrev pub no_rows : Result Tables → Result (Unit {0} × Tables)
no_rows (ok t) = ok (tt, t)
no_rows (err e) = err e

-- `errors.As(err, &pgErr) && pgErr.Code == "23505"`
unfoldable pub as_conflict : {A : Type 0} → Result A → Result A
as_conflict (ok a) = ok a
as_conflict (err (driver unique_violation)) = err idempotency_conflict
as_conflict (err e) = err e

-- The rows that RETURNING id, account_id gives, as the map from account to id: the last one counts.
unfoldable pub posting_ids : List Posting → List (Uuid × ℕ)
posting_ids [] = []
posting_ids (p ∷ ps) = (p.account_id, p.id) ∷ posting_ids ps

unfoldable pub lookup_id : Uuid → List (Uuid × ℕ) → Option ℕ
lookup_id a [] = none
lookup_id a ((b, id) ∷ ids) = elim (lookup_id a ids) [
  | some found ↦ some found
  | none ↦ if b == a then some id else none
]

-- The rows that VALUES makes, with the ids that the sequence gives from row n on.
unfoldable pub number_postings : (ℕ → ℕ) → ℕ → List Posting → List Posting
number_postings nextval n [] = []
number_postings nextval n (p ∷ ps) =
    record p { id = nextval n } ∷ number_postings nextval (suc n) ps

abbrev pub returning_ids : List Posting → Tables → Result (List (Uuid × ℕ) × Tables)
returning_ids rows t = elim (insert_postings rows t) [
  | ok t' ↦ ok (posting_ids rows, t')
  | err e ↦ err e
]

module _ (env : Env) where
  unfoldable pub create_account : CustomTx → Account → M (Unit {0})
  create_account tx acc = do lift (cast_tx tx); in_tx env (λ t. no_rows (insert_account acc t))

  unfoldable pub create_transaction : CustomTx → Transaction → M (Unit {0})
  create_transaction tx tr = do
    lift (cast_tx tx)
    λ w. let (r, w') = in_tx env (λ t. no_rows (insert_transaction tr t)) w in (as_conflict r, w')

  insert_numbered : List Posting → M (List (Uuid × ℕ))
  insert_numbered ps w = in_tx env (returning_ids (number_postings (env.nextval w.clock) zero ps)) w

  -- The statement is built for one posting or two; for any other number nothing is sent.
  unfoldable pub create_postings : CustomTx → List Posting → M (List (Uuid × ℕ))
  unfolding insert_numbered
  create_postings tx [] = do lift (cast_tx tx); pure []
  create_postings tx (p ∷ []) = do lift (cast_tx tx); insert_numbered (p ∷ [])
  create_postings tx (p ∷ q ∷ []) = do lift (cast_tx tx); insert_numbered (p ∷ q ∷ [])
  create_postings tx (p ∷ q ∷ r ∷ ps) = do lift (cast_tx tx); pure []

  unfoldable pub debit_balance : CustomTx → Uuid → ℤ → ℕ → M (Unit {0})
  debit_balance tx id amount posting_id = do
    lift (cast_tx tx)
    at ← now env
    affected ← in_tx env (debit id amount posting_id at)
    guard (affected == 0) insufficient_funds

  unfoldable pub credit_balance : CustomTx → Uuid → ℤ → ℕ → M (Unit {0})
  credit_balance tx id amount posting_id = do
    lift (cast_tx tx)
    at ← now env
    affected ← in_tx env (credit id amount posting_id at)
    guard (affected == 0) account_not_found

  unfoldable pub begin_tx : M CustomTx
  begin_tx = begin env

  unfoldable pub commit_tx : CustomTx → M (Unit {0})
  commit_tx tx = do lift (cast_tx tx); commit env

  unfoldable pub rollback_tx : CustomTx → M (Unit {0})
  rollback_tx tx = do lift (cast_tx tx); rollback env

  -- `defer func() { if err != nil { _ = t.repo.RollbackTx(ctx, tx) } }()`
  unfoldable pub or_rollback : {A : Type 0} → CustomTx → M A → M A
  or_rollback tx m w =
      let (r, w') = m w in elim r [ ok a ↦ (ok a, w') | err e ↦ (err e, (rollback_tx tx w').1) ]
