-- ===== src/Transfer/Completed.antt =====
-- A transfer goes through: no call of it fails, and it returns an id.
use high_load_ledger.Prelude.{ℕ, Bool, false, ltb, ◌≡◌, refl, ap, ◌∙◌, List, ◌∷◌}
use high_load_ledger.Entity.{Uuid, Time, Transaction, TransactionRequest}
use high_load_ledger.Result.{Result, ok, err}
use high_load_ledger.Store.{Tables}
use high_load_ledger.Store.Rows.{has_transaction}
use high_load_ledger.Store.Makes.{
  has_account_found, insert_transaction_makes, insert_two_postings_make,
}
use high_load_ledger.World.{Env, World, M, ◌>>=◌, ◌>>◌, active, pgx_tx, CustomTx, new_v7, now}
use high_load_ledger.World.Frame.{Wp-weaken, Wp}
use high_load_ledger.World.Sure.{IsReliable, Sure, Sure-bind, Sure-value, now-Sure, new_v7-Sure}
use high_load_ledger.Postgres.{
  rollback_tx, number_postings, create_transaction, create_postings, commit_tx, begin_tx,
  or_rollback,
}
use high_load_ledger.Postgres.Sure.{
  create_transaction-Sure, create_two_postings-Sure, commit_tx-Sure, begin_tx-Sure,
}
use high_load_ledger.Transfer.Defs.{
  transfer_status, publish, record_transfer, TransferUseCase, balance_ops, transfer_postings,
  new_transaction, apply_op, write_transfer, finish_transfer, transfer_in_tx, transfer, transaction,
  validate_transfer_currencies,
}
use high_load_ledger.Transfer.Effect.{
  ordered, different_accounts, debited_row, credited_row, Transferred,
}
use high_load_ledger.Transfer.Atomicity.{transaction_ok}
use high_load_ledger.Transfer.Success.{
  IsFeasible, positive_amount, ops-Ready, apply_op-Sure, has_new_transaction,
}
use high_load_ledger.Transfer.Checked.{validate_transfer_currencies-Sure}
use high_load_ledger.Store.Statements.{stored_row}

module _ {env : Env} (reliable : IsReliable env) (req : TransactionRequest) (w0 : World)
    (f : IsFeasible env req w0) where
  abbrev Ends : {A : Type 0} → A → World → Type 0
  Ends a v = (u : Tables) × (v.session ≡ active u)

  -- The tables with the transaction's row, and with its two postings.
  abbrev headed : Transaction → Tables
  headed trx = record w0.db { transactions = stored_row trx ∷ w0.db.transactions }

  abbrev posted : Transaction → ℕ → Tables
  posted trx n = record (headed trx) {
    postings =
        credited_row req trx (env.nextval n 1)
        ∷ debited_row req trx (env.nextval n 0)
        ∷ w0.db.postings;
  }

  ops-Sure :
      (ids : List (Uuid × ℕ)) (trx : Transaction) (n : ℕ) (test : Bool) (w : World)
      → w.session ≡ active (posted trx n)
      → Sure Ends (
          (apply_op env pgx_tx req ids (ordered test req).0
              >> apply_op env pgx_tx req ids (ordered test req).1)
            w)
  ops-Sure ids trx n test w s =
      let ne = different_accounts req f.valid in
      let (first, second) =
        ops-Ready req ids f.source f.target (posted trx n) ne f.source_found f.target_found
          (positive_amount req f.valid) f.source_fits f.covered f.target_not_negative f.room test in
      Sure-bind Ends (apply_op env pgx_tx req ids (ordered test req).0)
        (λ _. apply_op env pgx_tx req ids (ordered test req).1) w
        (apply_op-Sure reliable req ids (ordered test req).0 (posted trx n) w s first)
        λ _ w1 (u, changes, s1).
          Wp-weaken Ends (λ _. ⊥) _
            (apply_op-Sure reliable req ids (ordered test req).1 u w1 s1 (second u changes))
            (λ _ v (x, _, s2). (x, s2)) (λ _ e. e)

  write_transfer-Sure :
      (id : Uuid) (at : Time) (w : World)
      → has_transaction id w0.db.transactions ≡ false
      → w.session ≡ active w0.db
      → Sure Ends (write_transfer env pgx_tx req (new_transaction req id at) w)
  unfolding write_transfer balance_ops number_postings
  write_transfer-Sure id at w new s =
      let trx = new_transaction req id at in
      let ps = transfer_postings trx req in
      let known_a = has_account_found req.from_account_id w0.db.accounts f.source f.source_found in
      let known_b = has_account_found req.to_account_id w0.db.accounts f.target f.target_found in
      let inserted =
        insert_transaction_makes trx w0.db (positive_amount req f.valid) new f.new_key known_a
          known_b in
      let there = has_new_transaction (stored_row trx) w0.db.transactions in
      let k2 = λ (ids : List (Uuid × ℕ)).
        apply_op env pgx_tx req ids (balance_ops req).0
        >> apply_op env pgx_tx req ids (balance_ops req).1 in
      let k1 = λ (_ : Unit {0}). create_postings env pgx_tx ps >>= k2 in
      Sure-bind Ends (create_transaction env pgx_tx trx) k1 w
        (create_transaction-Sure reliable trx w0.db (headed trx) w s inserted)
        λ _ w1 s1.
          let p = debited_row req trx (env.nextval w1.clock 0) in
          let q = credited_row req trx (env.nextval w1.clock 1) in
          let journal =
            insert_two_postings_make p q (headed trx) (f.new_posting w1.clock 0)
              (f.new_posting w1.clock 1) (f.posting_ids_apart w1.clock) there there known_a
              known_b in
          Sure-bind Ends (create_postings env pgx_tx ps) k2 w1
            (create_two_postings-Sure reliable _ _ (headed trx) (posted trx w1.clock) w1 s1 journal)
            λ ids w2 (_, s2).
              ops-Sure ids trx w1.clock (ltb req.to_account_id req.from_account_id) w2 s2

  finish_transfer-Sure :
      (uc : TransferUseCase) (trx : Transaction) (t : Tables) (w : World)
      → w.session ≡ active t
      → Sure (λ id _. id ≡ trx.id) (finish_transfer env uc pgx_tx trx w)
  unfolding finish_transfer Wp
  finish_transfer-Sure uc trx t w s =
      Sure-bind (λ id _. id ≡ trx.id) (commit_tx env pgx_tx)
        (λ _ v. (ok trx.id, publish uc.has_publisher trx v)) w (commit_tx-Sure reliable t w s)
        λ _ v _. refl

  transfer_in_tx-Sure :
      (uc : TransferUseCase) (w : World)
      → w.session ≡ active w0.db
      → Sure (λ _ _. Unit {0}) (transfer_in_tx env uc req pgx_tx w)
  unfolding transfer_in_tx
  transfer_in_tx-Sure uc w s =
      let Q = λ (_ : Uuid) (_ : World). Unit {0} in
      let k2 = λ (id : Uuid) (at : Time).
        write_transfer env pgx_tx req (new_transaction req id at)
        >> finish_transfer env uc pgx_tx (new_transaction req id at) in
      let k1 = λ (id : Uuid). now env >>= k2 id in
      Sure-bind Q (new_v7 env) k1 w (new_v7-Sure reliable w) λ id w1 (made, s1, _).
        Sure-bind Q (now env) (k2 id) w1 (now-Sure reliable w1) λ at w2 (s2, _).
          Sure-bind Q (write_transfer env pgx_tx req (new_transaction req id at))
            (λ _. finish_transfer env uc pgx_tx (new_transaction req id at)) w2
            (write_transfer-Sure id at w2 (f.new_id w.clock id made) (s2 ∙ s1 ∙ s))
            λ _ w3 (u, s3).
              Wp-weaken Q (λ _. ⊥) _ (finish_transfer-Sure uc (new_transaction req id at) u w3 s3)
                (λ _ _ _. tt) (λ _ e. e)

  or_rollback-Sure :
      {A : Type 0} (tx : CustomTx) (m : M A) (Q : A → World → Type 0) (w : World)
      → Sure Q (m w)
      → Sure Q (or_rollback env tx m w)
  unfolding or_rollback Wp
  or_rollback-Sure {A} tx m Q w h = kept (m w) h
    where
      kept :
          (o : Result A × World)
          → Sure Q o
          → Sure Q (elim o.0 as (λ _. Result A × World) [
            | ok a ↦ (ok a, o.1)
            | err e ↦ (err e, (rollback_tx env tx o.1).1)
          ])
      kept (ok a, v) q = q
      kept (err e, v) q = absurd q

  transfer-Sure : (uc : TransferUseCase) → Sure (λ _ _. Unit {0}) (transfer env uc req w0)
  unfolding transfer
  transfer-Sure uc =
      let Q = λ (_ : Uuid) (_ : World). Unit {0} in
      let check =
        validate_transfer_currencies env req.from_account_id req.to_account_id req.currency in
      let k2 = λ (tx : CustomTx). or_rollback env tx (transfer_in_tx env uc req tx) in
      let k1 = λ (_ : Unit {0}). begin_tx env >>= k2 in
      rw f.valid (
        Sure-bind Q check k1 w0
          (validate_transfer_currencies-Sure reliable req.from_account_id req.to_account_id
            req.currency (different_accounts req f.valid) w0
            (
              f.source, f.target, f.source_found, f.target_found, f.source_currency,
              f.target_currency,
            )
            f.source_cached f.target_cached)
          λ _ w1 d1.
            Sure-bind Q (begin_tx env) k2 w1 (begin_tx-Sure reliable w1) λ tx w2 (is_tx, s2).
              or_rollback-Sure tx (transfer_in_tx env uc req tx) Q w2
                (rw is_tx (transfer_in_tx-Sure uc w2 (s2 ∙ ap active d1))))

  -- A transfer goes through if the request is valid, both accounts exist with its currency, the
  -- source has the amount, and the target's balance stays a BIGINT with it, the cache holds no
  -- other currency of the two, the key and the ids that will be drawn are new, and nothing fails:
  -- every call is answered, no other session writes, and ids can be made. The call then returns an
  -- id, and has transferred the amount.
  pub transaction_succeeds :
      (uc : TransferUseCase)
      → (id : Uuid) × (v : World) × (transaction env uc req w0 ≡ (ok id, v))
        × ((at : Time) × Transferred req id at w0.db v.db)
  unfolding transaction
  transaction_succeeds uc =
      let (id, u, e, _) =
        Sure-value (λ _ _. Unit {0}) (transfer env uc req w0) (transfer-Sure uc) in
      let v = record_transfer uc.has_metrics (transfer_status {A = Uuid} (ok id)) u in
      let run : transaction env uc req w0 ≡ (ok id, v) = rw (e, transaction) refl in
      let (at, moved, _) = transaction_ok env uc req w0 v id reliable.quiet run in
      (id, v, run, (at, moved))
