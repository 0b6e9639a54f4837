-- ===== src/Transfer/Run.antt =====
-- The statements of one transfer, in order, with the tables between them. Between two statements
-- other sessions may commit.
use high_load_ledger.Prelude.{ℕ, zero, Bool, true, false, ◌≡◌, List, ◌==◌, if◌then◌else◌}
use high_load_ledger.Entity.{Uuid, Time, Transaction, TransactionRequest, Posting}
use high_load_ledger.Result.{Result, ok}
use high_load_ledger.Store.{Tables}
use high_load_ledger.Store.Statements.{insert_transaction, insert_postings, debit, credit}
use high_load_ledger.World.{Env, World, active, pgx_tx}
use high_load_ledger.World.Frame.{Evolves, Frame, Frame-refl, Frame-trans, Wp-step, Wp, Wp-weaken}
use high_load_ledger.Postgres.{
  number_postings, posting_ids, lookup_id, create_transaction, create_postings,
}
use high_load_ledger.Postgres.Specs.{no_rows-eq-ok, returning_ids-eq-ok}
use high_load_ledger.Postgres.Calls.{
  Updated, create_transaction-Wp, create_two_postings-Wp, debit_balance-Wp, credit_balance-Wp,
}
use high_load_ledger.Transfer.Defs.{
  BalanceOp, balance_ops, or_zero, transfer_postings, apply_op, write_transfer,
}

-- The UPDATE of one balance operation.
unfoldable pub op_update :
    TransactionRequest → List (Uuid × ℕ) → BalanceOp → Time → Tables → Result (ℕ × Tables)
op_update req ids op at t =
    let posting_id = or_zero (lookup_id op.account_id ids) in
    if op.is_debit
    then debit op.account_id req.amount posting_id at t
    else credit op.account_id req.amount posting_id at t

-- An UPDATE that changed a row, on tables that evolved from `t`.
pub record Updates (env : Env) (f : Time → Tables → Result (ℕ × Tables)) (t t' : Tables)
    : Type 0 where
  pub at : Time
  pub rows : ℕ
  pub before : Tables
  pub seen : Evolves env t before
  pub result : f at before ≡ ok (rows, t')
  pub changed : (rows == 0) ≡ false

-- The two rows of the journal, with the ids that the sequence gives to call n.
abbrev pub journal_rows : Env → TransactionRequest → Transaction → ℕ → List Posting
journal_rows env req trx n = number_postings (env.nextval n) zero (transfer_postings trx req)

-- The session's tables `t'` after all statements of the transfer, which began on `t`.
pub record Wrote (env : Env) (req : TransactionRequest) (trx : Transaction) (t t' : Tables)
    : Type 0 where
  pub before : Tables
  pub seen : Evolves env t before
  pub headed : Tables
  pub inserted : insert_transaction trx before ≡ ok headed
  pub between : Tables
  pub seen_between : Evolves env headed between
  -- the number of the call that writes the journal, and what it returns
  pub call : ℕ
  pub posted : Tables
  pub journal : insert_postings (journal_rows env req trx call) between ≡ ok posted
  pub ids : List (Uuid × ℕ)
  pub returned : ids ≡ posting_ids (journal_rows env req trx call)
  pub halfway : Tables
  pub first : Updates env (op_update req ids (balance_ops req).0) posted halfway
  pub second : Updates env (op_update req ids (balance_ops req).1) halfway t'

module _ (env : Env) where
  pub Updated-Updates :
      (f : Time → Tables → Result (ℕ × Tables)) (t : Tables) (w v : World)
      → Updated env f t w v
      → (t' : Tables) × Updates env f t t' × (v.session ≡ active t') × Frame env w v
  Updated-Updates f t w v (at, n, z, ran, fr) = (
    ran.after,
    record {
      at = at;
      rows = n;
      before = ran.before;
      seen = ran.seen;
      result = ran.result;
      changed = z;
    },
    ran.session,
    fr,
  )

  abbrev pub After : (Tables → Type 0) → World → World → Type 0
  After P w v = (t' : Tables) × P t' × (v.session ≡ active t') × Frame env w v

  op_by-Wp :
      (req : TransactionRequest) (ids : List (Uuid × ℕ)) (a : Uuid) (b : Bool) (t : Tables)
      (w : World)
      → w.session ≡ active t
      → let op : BalanceOp = record { account_id = a; is_debit = b } in
        Wp
          (λ _ v. Updated env (op_update req ids op) t w v)
          (λ v. Frame env w v)
          (apply_op env pgx_tx req ids op w)
  unfolding apply_op op_update
  op_by-Wp req ids a true t w h = debit_balance-Wp env a _ _ t w h
  op_by-Wp req ids a false t w h = credit_balance-Wp env a _ _ t w h

  pub apply_op-Wp :
      (req : TransactionRequest) (ids : List (Uuid × ℕ)) (op : BalanceOp) (t : Tables) (w : World)
      → w.session ≡ active t
      → Wp
          (λ _ v. After (Updates env (op_update req ids op) t) w v)
          (λ v. Frame env w v)
          (apply_op env pgx_tx req ids op w)
  apply_op-Wp req ids op t w h =
      Wp-weaken _ _ _ (op_by-Wp req ids op.account_id op.is_debit t w h)
        (λ _ v u. Updated-Updates (op_update req ids op) t w v u) (λ v fr. fr)

  pub write_transfer-Wp :
      (req : TransactionRequest) (trx : Transaction) (t : Tables) (w : World)
      → w.session ≡ active t
      → Wp
          (λ _ v. After (Wrote env req trx t) w v)
          (λ v. Frame env w v)
          (write_transfer env pgx_tx req trx w)
  unfolding write_transfer
  write_transfer-Wp req trx t w h =
      Wp-step _ (create_transaction env pgx_tx trx) _ (Frame-refl w)
        (create_transaction-Wp env trx t w h)
        λ _ w1 (r0, f0).
          Wp-step _ (create_postings env pgx_tx (transfer_postings trx req)) _ f0
            (create_two_postings-Wp env _ _ r0.after w1 r0.session)
            λ ids w2 (r1, f1).
              let eqs = returning_ids-eq-ok _ ids r1.before r1.after r1.result in
              Wp-step _ (apply_op env pgx_tx req ids (balance_ops req).0) _ (Frame-trans f0 f1)
                (apply_op-Wp req ids (balance_ops req).0 r1.after w2 r1.session)
                λ _ w3 (t3, u3, s3, f3).
                  Wp-weaken _ _ _ (apply_op-Wp req ids (balance_ops req).1 t3 w3 s3)
                    (λ _ v (t4, u4, s4, f4). (
                      t4,
                      record {
                        before = r0.before;
                        seen = r0.seen;
                        headed = r0.after;
                        inserted = no_rows-eq-ok _ _ _ r0.result;
                        between = r1.before;
                        seen_between = r1.seen;
                        call = w1.clock;
                        posted = r1.after;
                        journal = eqs.0;
                        ids = ids;
                        returned = eqs.1;
                        halfway = t3;
                        first = u3;
                        second = u4;
                      },
                      s4,
                      Frame-trans f0 (Frame-trans f1 (Frame-trans f3 f4)),
                    ))
                    (λ v f4. Frame-trans f0 (Frame-trans f1 (Frame-trans f3 f4)))
