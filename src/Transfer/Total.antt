-- ===== src/Transfer/Total.antt =====
-- The sum of all balances.
use high_load_ledger.Prelude.{
  ℕ, Bool, true, false, ltb, ◌≡◌, refl, sym, ap, subst, ◌∙◌, some, List, [], ◌∷◌, ◌==◌,
  if◌then◌else◌, inl, inr, Bool-cases, eq_of_some,
}
use high_load_ledger.Prelude.Int.{ℤ, pos, ◌+ℤ◌, int_laws, parts_of_eq}
use high_load_ledger.Entity.{Uuid, Time, Account, TransactionRequest, Transaction}
use high_load_ledger.Result.{Result, ok, err}
use high_load_ledger.Store.{Tables}
use high_load_ledger.Store.Rows.{find_account, put_account}
use high_load_ledger.Store.Statements.{debit, credit}
use high_load_ledger.Store.Laws.{
  UpdatesRow, updated_row, debit_ok, credit_ok, insert_transaction_ok, insert_two_postings_ok,
  find_account-id,
}
use high_load_ledger.World.{Env, World}
use high_load_ledger.World.Frame.{Evolves, Evolves-keeps}
use high_load_ledger.Transfer.Defs.{TransferUseCase, balance_ops, transaction, new_transaction}
use high_load_ledger.Transfer.Run.{Updates, op_update, Wrote}
use high_load_ledger.Transfer.Effect.{ordered}
use high_load_ledger.Transfer.Outcome.{Committed}
use high_load_ledger.Transfer.Counted.{Outcome, transaction-Outcome}

-- SELECT SUM(amount) FROM ledger.accounts
unfoldable pub total_balance : List Account → ℤ
total_balance [] = pos 0
total_balance (r ∷ rs) = r.balance +ℤ total_balance rs

none_found : (id : Uuid) (r : Account) → find_account id [] ≡ some r → ⊥
unfolding find_account
none_found id r h = cc h

find_first :
    (id : Uuid) (r : Account) (rs : List Account)
    → (r.id == id) ≡ true
    → find_account id (r ∷ rs) ≡ some r
unfolding find_account
find_first id r rs h = rw h refl

find_next :
    (id : Uuid) (r : Account) (rs : List Account)
    → (r.id == id) ≡ false
    → find_account id (r ∷ rs) ≡ find_account id rs
unfolding find_account
find_next id r rs h = rw h refl

total_balance-put :
    (row old : Account) (rs : List Account)
    → find_account row.id rs ≡ some old
    → total_balance (put_account row rs) +ℤ old.balance ≡ total_balance rs +ℤ row.balance
unfolding total_balance put_account
total_balance-put row old [] h = absurd (none_found row.id old h)
total_balance-put row old (r ∷ rs) h = elim (Bool-cases (r.id == row.id)) [
  | inl same ↦
      let e = eq_of_some r old (sym (find_first row.id r rs same) ∙ h) in
      rw (same, ← e) (omega int_laws)
  | inr differs ↦
      let rest = total_balance-put row old rs (sym (find_next row.id r rs differs) ∙ h) in
      rw differs (omega (int_laws, parts_of_eq _ _ rest))
]

-- An update moves the total by what it adds to its row.
UpdatesRow-total :
    {id : Uuid} {amount : ℤ} {latest : ℕ} {at : Time} {row : Account} {t t' : Tables}
    → UpdatesRow id amount latest at row t t'
    → total_balance t'.accounts +ℤ row.balance ≡ total_balance t.accounts +ℤ amount
UpdatesRow-total {id} {amount} {latest} {at} {row} {t} {t'} u =
    subst (λ v. total_balance v.accounts +ℤ row.balance ≡ total_balance t.accounts +ℤ amount)
      (sym u.rows)
      (total_balance-put (updated_row row amount latest at) row t.accounts (
        subst (λ k. find_account k t.accounts ≡ some row)
          (sym (find_account-id id t.accounts row u.found)) u.found))

debit-total :
    (id : Uuid) (amount : ℤ) (posting_id : ℕ) (at : Time) (n : ℕ) (t u : Tables)
    → debit id amount posting_id at t ≡ ok (n, u)
    → (n == 0) ≡ false
    → total_balance u.accounts +ℤ amount ≡ total_balance t.accounts
debit-total id amount posting_id at n t u h z =
    let (row, x, _) = debit_ok id amount posting_id at n t u h z in
    omega (int_laws, parts_of_eq _ _ (UpdatesRow-total x))

credit-total :
    (id : Uuid) (amount : ℤ) (posting_id : ℕ) (at : Time) (n : ℕ) (t u : Tables)
    → credit id amount posting_id at t ≡ ok (n, u)
    → (n == 0) ≡ false
    → total_balance u.accounts ≡ total_balance t.accounts +ℤ amount
credit-total id amount posting_id at n t u h z =
    let (row, x) = credit_ok id amount posting_id at n t u h z in
    omega (int_laws, parts_of_eq _ _ (UpdatesRow-total x))

-- The other sessions neither make money nor lose it.
pub record KeepsTotal (env : Env) : Type 0 where
  pub keeps_total :
      (n : ℕ) (t : Tables) → total_balance (env.others n t).accounts ≡ total_balance t.accounts

module _ {env : Env} (keeps : KeepsTotal env) where
  Evolves-total :
      {t u : Tables} → Evolves env t u → total_balance u.accounts ≡ total_balance t.accounts
  Evolves-total {t} e =
      Evolves-keeps (λ v. total_balance v.accounts ≡ total_balance t.accounts)
        (λ n v h. keeps.keeps_total n v ∙ h) e refl

  module _ (req : TransactionRequest) (ids : List (Uuid × ℕ)) where
    op_total :
        (a : Uuid) (b : Bool) (t u : Tables)
        → Updates env (op_update req ids (record { account_id = a; is_debit = b })) t u
        → total_balance u.accounts +ℤ (if b then req.amount else pos 0)
          ≡ total_balance t.accounts +ℤ (if b then pos 0 else req.amount)
    unfolding op_update
    op_total a true t u x =
        let e = Evolves-total x.seen in
        let d = debit-total a req.amount _ x.at x.rows x.before u x.result x.changed in
        omega (int_laws, parts_of_eq _ _ e, parts_of_eq _ _ d)
    op_total a false t u x =
        let e = Evolves-total x.seen in
        let d = credit-total a req.amount _ x.at x.rows x.before u x.result x.changed in
        omega (int_laws, parts_of_eq _ _ e, parts_of_eq _ _ d)

    ops_total :
        (test : Bool) (t v u : Tables)
        → Updates env (op_update req ids (ordered test req).0) t v
        → Updates env (op_update req ids (ordered test req).1) v u
        → total_balance u.accounts ≡ total_balance t.accounts
    ops_total true t v u x y =
        let e1 = op_total req.to_account_id false t v x in
        let e2 = op_total req.from_account_id true v u y in
        omega (int_laws, parts_of_eq _ _ e1, parts_of_eq _ _ e2)
    ops_total false t v u x y =
        let e1 = op_total req.from_account_id true t v x in
        let e2 = op_total req.to_account_id false v u y in
        omega (int_laws, parts_of_eq _ _ e1, parts_of_eq _ _ e2)

  -- The statements of a transfer cancel out.
  pub Wrote-total :
      (req : TransactionRequest) (trx : Transaction) (t u : Tables)
      → Wrote env req trx t u
      → total_balance u.accounts ≡ total_balance t.accounts
  unfolding balance_ops high_load_ledger.Store.Statements.insert_postings
      high_load_ledger.Postgres.number_postings
  Wrote-total req trx t u w =
      ops_total req w.ids (ltb req.to_account_id req.from_account_id) w.posted w.halfway u w.first
        w.second
      ∙ ap (λ v. total_balance v.accounts) (insert_two_postings_ok _ _ w.between w.posted w.journal)
      ∙ Evolves-total w.seen_between
      ∙ ap (λ v. total_balance v.accounts)
          (insert_transaction_ok trx w.before w.headed w.inserted).rows
      ∙ Evolves-total w.seen

  Committed-total :
      (req : TransactionRequest) (id : Uuid) (at : Time) (t u : Tables)
      → Committed env req id at t u
      → total_balance u.accounts ≡ total_balance t.accounts
  Committed-total req id at t u c =
      Evolves-total c.kept ∙ Wrote-total req (new_transaction req id at) t c.written c.wrote

  Outcome-total :
      (uc : TransferUseCase) (req : TransactionRequest) (w v : World) (r : Result Uuid)
      → Outcome env uc req w (r, v)
      → total_balance v.db.accounts ≡ total_balance w.db.accounts
  Outcome-total uc req w v (ok id) (at, c, _, _) = Committed-total req id at w.db v.db c
  Outcome-total uc req w v (err e) (inl k, _, _) = Evolves-total k
  Outcome-total uc req w v (err e) (inr (l, _), _, _) =
      Committed-total req l.id l.at w.db v.db l.committed

-- The sum of all balances is the same after a transfer, whatever it returns, whatever calls fail or
-- lose their answers, and whatever other sessions commit between its statements, as long as these
-- keep the sum too.
pub transaction-total :
    (env : Env) (uc : TransferUseCase) (req : TransactionRequest) (w v : World) (r : Result Uuid)
    → KeepsTotal env
    → transaction env uc req w ≡ (r, v)
    → total_balance v.db.accounts ≡ total_balance w.db.accounts
transaction-total env uc req w v r keeps h =
    Outcome-total keeps uc req w v r
      (subst (Outcome env uc req w) h (transaction-Outcome env uc req w))
