-- ===== src/Transfer/Consistency.antt =====
-- A transfer keeps the ledger consistent, also while other sessions commit between its statements.
use high_load_ledger.Prelude.{
  ◌≤◌, ℕ, Bool, true, false, ltb, ◌≡◌, ◌≢◌, refl, ap, subst, ◌∙◌, List, [], ◌∷◌, arith, ◌==◌, inl,
  inr, Bool-cases, if◌then◌else◌,
}
use high_load_ledger.Prelude.Int.{ℤ, pos, ◌-ℤ◌, int_laws}
use high_load_ledger.Entity.{Uuid, Time, Transaction, TransactionRequest, Posting}
use high_load_ledger.Result.{Result, ok, err}
use high_load_ledger.Store.{Tables}
use high_load_ledger.Store.Ledger.{
  Ledger-weaken, insert_postings-Ledger, IsConsistent, Ledger, nothing_owed, nothing_ahead,
  IsConsistent-Ledger, Ledger-IsConsistent, owe, advance, record_id, insert_transaction-Ledger,
  debit-Ledger, credit-Ledger,
}
use high_load_ledger.World.{Env, World}
use high_load_ledger.World.Rely.{Evolves-IsConsistent, Respects, Evolves-Ledger}
use high_load_ledger.Postgres.{number_postings, posting_ids, lookup_id}
use high_load_ledger.Transfer.Defs.{
  TransferUseCase, balance_ops, or_zero, new_transaction, transaction,
}
use high_load_ledger.Transfer.Run.{Updates, op_update, Wrote}
use high_load_ledger.Transfer.Outcome.{Committed}
use high_load_ledger.Transfer.Counted.{Outcome, transaction-Outcome}
use high_load_ledger.Transfer.Effect.{ordered, debited_row, credited_row, different_accounts}

-- The ids that the balance updates record are those of the journal.
lookup_ids :
    (a b : Uuid) (p q : Posting)
    → p.account_id ≡ a
    → q.account_id ≡ b
    → a ≢ b
    → (or_zero (lookup_id a (posting_ids (p ∷ q ∷ []))) ≡ p.id)
      × (or_zero (lookup_id b (posting_ids (p ∷ q ∷ []))) ≡ q.id)
unfolding lookup_id posting_ids
lookup_ids a b p q ep eq ne = (ground arith, ground arith)

module _ {env : Env} (respects : Respects env) (req : TransactionRequest)
    (ids : List (Uuid × ℕ)) where
  op_Ledger :
      (a : Uuid) (b : Bool) (t u : Tables) {owed : Uuid → ℤ} {ahead : Uuid → ℕ}
      → Updates env (op_update req ids (record { account_id = a; is_debit = b })) t u
      → Ledger owed ahead t
      → Ledger
          (owe a (if b then req.amount else pos 0 -ℤ req.amount) owed)
          (record_id a (or_zero (lookup_id a ids)) ahead)
          u
  unfolding op_update
  op_Ledger a true t u x l =
      debit-Ledger a req.amount _ x.at x.rows x.before u x.result x.changed
        (Evolves-Ledger respects x.seen l)
  op_Ledger a false t u x l =
      credit-Ledger a req.amount _ x.at x.rows x.before u x.result x.changed
        (Evolves-Ledger respects x.seen l)

-- What the journal adds to what is pending is settled by the two updates, in either order.
module _ (a b : Uuid) (amount : ℤ) (n m : ℕ) (owed : Uuid → ℤ) (ahead : Uuid → ℕ) where
  abbrev pub journal_owed : Uuid → ℤ
  journal_owed = owe b amount (owe a (pos 0 -ℤ amount) owed)

  abbrev pub journal_ahead : Uuid → ℕ
  journal_ahead = advance b m (advance a n ahead)

  settled_debit_last :
      (x : Uuid)
      → (owe a amount (owe b (pos 0 -ℤ amount) journal_owed) x ≡ owed x)
        × (record_id a n (record_id b m journal_ahead) x ≤ ahead x)
  settled_debit_last x = elim (Bool-cases (a == x)) [
    | inl p ↦ elim (Bool-cases (b == x)) [
      | inl q ↦ rw (p, q) (omega int_laws, ground arith)
      | inr q ↦ rw (p, q) (omega int_laws, ground arith)
    ]
    | inr p ↦ elim (Bool-cases (b == x)) [
      | inl q ↦ rw (p, q) (omega int_laws, ground arith)
      | inr q ↦ rw (p, q) (refl, omega arith)
    ]
  ]

  settled_credit_last :
      (x : Uuid)
      → (owe b (pos 0 -ℤ amount) (owe a amount journal_owed) x ≡ owed x)
        × (record_id b m (record_id a n journal_ahead) x ≤ ahead x)
  settled_credit_last x = elim (Bool-cases (a == x)) [
    | inl p ↦ elim (Bool-cases (b == x)) [
      | inl q ↦ rw (p, q) (omega int_laws, ground arith)
      | inr q ↦ rw (p, q) (omega int_laws, ground arith)
    ]
    | inr p ↦ elim (Bool-cases (b == x)) [
      | inl q ↦ rw (p, q) (omega int_laws, ground arith)
      | inr q ↦ rw (p, q) (refl, omega arith)
    ]
  ]

module _ {env : Env} (respects : Respects env) (req : TransactionRequest) (ids : List (Uuid × ℕ))
    (n m : ℕ) (from_id : or_zero (lookup_id req.from_account_id ids) ≡ n)
    (to_id : or_zero (lookup_id req.to_account_id ids) ≡ m) (owed : Uuid → ℤ)
    (ahead : Uuid → ℕ) where
  both_settle :
      (test : Bool) (t v u : Tables)
      → Updates env (op_update req ids (ordered test req).0) t v
      → Updates env (op_update req ids (ordered test req).1) v u
      → Ledger
          (journal_owed req.from_account_id req.to_account_id req.amount n m owed ahead)
          (journal_ahead req.from_account_id req.to_account_id req.amount n m owed ahead)
          t
      → Ledger owed ahead u
  both_settle true t v u x y l =
      let a = req.from_account_id in
      let b = req.to_account_id in
      let l1 = op_Ledger respects req ids b false t v x l in
      let l2 = op_Ledger respects req ids a true v u y l1 in
      let done = settled_debit_last a b req.amount n m owed ahead in
      Ledger-weaken _ owed _ ahead u (λ z. (done z).0) (λ z. rw (from_id, to_id) (done z).1) l2
  both_settle false t v u x y l =
      let a = req.from_account_id in
      let b = req.to_account_id in
      let l1 = op_Ledger respects req ids a true t v x l in
      let l2 = op_Ledger respects req ids b false v u y l1 in
      let done = settled_credit_last a b req.amount n m owed ahead in
      Ledger-weaken _ owed _ ahead u (λ z. (done z).0) (λ z. rw (from_id, to_id) (done z).1) l2

module _ {env : Env} (respects : Respects env) (req : TransactionRequest) (trx : Transaction) where
  -- The statements of a transfer leave pending what was pending before.
  pub Wrote-Ledger :
      (owed : Uuid → ℤ) (ahead : Uuid → ℕ) (t u : Tables)
      → req.from_account_id ≢ req.to_account_id
      → Wrote env req trx t u
      → Ledger owed ahead t
      → Ledger owed ahead u
  unfolding number_postings balance_ops
  Wrote-Ledger owed ahead t u ne w l =
      let p = debited_row req trx (env.nextval w.call 0) in
      let q = credited_row req trx (env.nextval w.call 1) in
      let start = Evolves-Ledger respects w.seen l in
      let headed = insert_transaction-Ledger trx w.before w.headed w.inserted start in
      let between = Evolves-Ledger respects w.seen_between headed in
      let posted = insert_postings-Ledger (p ∷ q ∷ []) w.between w.posted _ _ w.journal between in
      let looked = lookup_ids req.from_account_id req.to_account_id p q refl refl ne in
      both_settle respects req w.ids p.id q.id
        (ap (λ l. or_zero (lookup_id req.from_account_id l)) w.returned ∙ looked.0)
        (ap (λ l. or_zero (lookup_id req.to_account_id l)) w.returned ∙ looked.1) owed ahead
        (ltb req.to_account_id req.from_account_id) w.posted w.halfway u w.first w.second posted

  Wrote-IsConsistent :
      (t u : Tables)
      → req.from_account_id ≢ req.to_account_id
      → Wrote env req trx t u
      → IsConsistent t
      → IsConsistent u
  Wrote-IsConsistent t u ne w c =
      Ledger-IsConsistent nothing_owed nothing_ahead u (λ _. refl) (λ _. refl)
        (Wrote-Ledger nothing_owed nothing_ahead t u ne w (IsConsistent-Ledger t c))

module _ {env : Env} (respects : Respects env) where
  Committed-IsConsistent :
      (req : TransactionRequest) (id : Uuid) (at : Time) (t u : Tables)
      → Committed env req id at t u
      → IsConsistent t
      → IsConsistent u
  Committed-IsConsistent req id at t u c h = Evolves-IsConsistent respects c.kept (
      Wrote-IsConsistent respects req (new_transaction req id at) t c.written
        (different_accounts req c.valid) c.wrote h)

  Outcome-IsConsistent :
      (uc : TransferUseCase) (req : TransactionRequest) (w v : World) (r : Result Uuid)
      → Outcome env uc req w (r, v)
      → IsConsistent w.db
      → IsConsistent v.db
  Outcome-IsConsistent uc req w v (ok id) (at, c, _, _) h =
      Committed-IsConsistent req id at w.db v.db c h
  Outcome-IsConsistent uc req w v (err e) (inl k, _, _) h = Evolves-IsConsistent respects k h
  Outcome-IsConsistent uc req w v (err e) (inr (l, _), _, _) h =
      Committed-IsConsistent req l.id l.at w.db v.db l.committed h

-- In a ledger whose balances are the sums of their postings a transfer leaves one: whatever it
-- returns, whatever calls fail or lose their answers, and whatever the other sessions commit between
-- its statements, as long as they change a balance together with the journal.
pub transaction-IsConsistent :
    (env : Env) (uc : TransferUseCase) (req : TransactionRequest) (w v : World) (r : Result Uuid)
    → Respects env
    → transaction env uc req w ≡ (r, v)
    → IsConsistent w.db
    → IsConsistent v.db
transaction-IsConsistent env uc req w v r respects h c =
    Outcome-IsConsistent respects uc req w v r
      (subst (Outcome env uc req w) h (transaction-Outcome env uc req w)) c
