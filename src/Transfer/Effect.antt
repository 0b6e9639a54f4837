-- ===== src/Transfer/Effect.antt =====
-- What a committed transfer changes, when no other session writes meanwhile.
use high_load_ledger.Prelude.{
  ℕ, Bool, true, false, ltb, ◌≡◌, ◌≢◌, refl, sym, ap, subst, ◌∙◌, some, List, ◌∷◌, arith, ◌==◌,
  if◌then◌else◌,
}
use high_load_ledger.Prelude.Int.{ℤ, pos, ◌+ℤ◌, ◌-ℤ◌, ◌≤ℤ◌}
use high_load_ledger.Entity.{Uuid, Time, Account, Posting, Transaction, TransactionRequest}
use high_load_ledger.Result.{ok}
use high_load_ledger.Store.{Tables}
use high_load_ledger.Store.Rows.{find_account, has_key}
use high_load_ledger.Store.Statements.{stored_row, debit, credit}
use high_load_ledger.Store.Laws.{
  UpdatesRow-find_self, UpdatesRow-find_ne, UpdatesRow-rest, debit_ok, credit_ok,
  InsertsTransaction, insert_transaction_ok, insert_two_postings_ok,
}
use high_load_ledger.World.{Env, IsQuiet}
use high_load_ledger.World.Frame.{Evolves-quiet}
use high_load_ledger.Postgres.{number_postings}
use high_load_ledger.Transfer.Defs.{BalanceOp, balance_ops, new_transaction, validate_request}
use high_load_ledger.Transfer.Run.{Updates, op_update, Wrote}
use high_load_ledger.Transfer.Outcome.{Committed}

-- The amount goes from one account to the other, and no third account changes.
pub record Moves (a b : Uuid) (amount : ℤ) (t u : Tables) : Type 0 where
  pub source : Account
  pub target : Account
  pub source_found : find_account a t.accounts ≡ some source
  pub target_found : find_account b t.accounts ≡ some target
  pub covered : amount ≤ℤ source.balance
  pub source_after :
      (row : Account) × (find_account a u.accounts ≡ some row)
      × (row.balance ≡ source.balance -ℤ amount)
  pub target_after :
      (row : Account) × (find_account b u.accounts ≡ some row)
      × (row.balance ≡ target.balance +ℤ amount)
  pub others : (x : Uuid) → x ≢ a → x ≢ b → find_account x u.accounts ≡ find_account x t.accounts
  pub transactions : u.transactions ≡ t.transactions
  pub postings : u.postings ≡ t.postings
  pub cursors : u.cursors ≡ t.cursors

module _ (a b : Uuid) (amount : ℤ) (p q : ℕ) (ne : a ≢ b) where
  debit_then_credit :
      (at bt : Time) (m n : ℕ) (t v u : Tables)
      → debit a amount p at t ≡ ok (m, v)
      → (m == 0) ≡ false
      → credit b amount q bt v ≡ ok (n, u)
      → (n == 0) ≡ false
      → Moves a b amount t u
  debit_then_credit at bt m n t v u h z k y =
      let (r, ur, cov) = debit_ok a amount p at m t v h z in
      let (s, us) = credit_ok b amount q bt n v u k y in
      record {
        source = r;
        target = s;
        source_found = ur.found;
        target_found = sym (UpdatesRow-find_ne ur b (λ e. ne (sym e))) ∙ us.found;
        covered = cov;
        source_after = (_, UpdatesRow-find_ne us a ne ∙ UpdatesRow-find_self ur, refl);
        target_after = (_, UpdatesRow-find_self us, refl);
        others = λ x xa xb. UpdatesRow-find_ne us x xb ∙ UpdatesRow-find_ne ur x xa;
        transactions = (UpdatesRow-rest us).0 ∙ (UpdatesRow-rest ur).0;
        postings = (UpdatesRow-rest us).1 ∙ (UpdatesRow-rest ur).1;
        cursors = (UpdatesRow-rest us).2 ∙ (UpdatesRow-rest ur).2;
      }

  credit_then_debit :
      (at bt : Time) (m n : ℕ) (t v u : Tables)
      → credit b amount q bt t ≡ ok (n, v)
      → (n == 0) ≡ false
      → debit a amount p at v ≡ ok (m, u)
      → (m == 0) ≡ false
      → Moves a b amount t u
  credit_then_debit at bt m n t v u k y h z =
      let (s, us) = credit_ok b amount q bt n t v k y in
      let (r, ur, cov) = debit_ok a amount p at m v u h z in
      record {
        source = r;
        target = s;
        source_found = sym (UpdatesRow-find_ne us a ne) ∙ ur.found;
        target_found = us.found;
        covered = cov;
        source_after = (_, UpdatesRow-find_self ur, refl);
        target_after =
            (_, UpdatesRow-find_ne ur b (λ e. ne (sym e)) ∙ UpdatesRow-find_self us, refl);
        others = λ x xa xb. UpdatesRow-find_ne ur x xa ∙ UpdatesRow-find_ne us x xb;
        transactions = (UpdatesRow-rest ur).0 ∙ (UpdatesRow-rest us).0;
        postings = (UpdatesRow-rest ur).1 ∙ (UpdatesRow-rest us).1;
        cursors = (UpdatesRow-rest ur).2 ∙ (UpdatesRow-rest us).2;
      }

abbrev pub debit_op : TransactionRequest → BalanceOp
debit_op req = record { account_id = req.from_account_id; is_debit = true }

abbrev pub credit_op : TransactionRequest → BalanceOp
credit_op req = record { account_id = req.to_account_id; is_debit = false }

abbrev pub ordered : Bool → TransactionRequest → BalanceOp × BalanceOp
ordered test req = if test then (credit_op req, debit_op req) else (debit_op req, credit_op req)

module _ {env : Env} (quiet : IsQuiet env) (req : TransactionRequest) (ids : List (Uuid × ℕ)) where
  -- Alone, an update sees the tables that the statement before it left.
  alone :
      (op : BalanceOp) (t u : Tables) (x : Updates env (op_update req ids op) t u)
      → op_update req ids op x.at t ≡ ok (x.rows, u)
  alone op t u x =
      subst (λ v. op_update req ids op x.at v ≡ ok (x.rows, u)) (Evolves-quiet quiet x.seen)
        x.result

  in_order :
      (test : Bool) (t v u : Tables)
      → req.from_account_id ≢ req.to_account_id
      → Updates env (op_update req ids (ordered test req).0) t v
      → Updates env (op_update req ids (ordered test req).1) v u
      → Moves req.from_account_id req.to_account_id req.amount t u
  unfolding op_update
  in_order true t v u ne x y =
      credit_then_debit _ _ _ _ _ ne y.at x.at y.rows x.rows t v u (alone (credit_op req) t v x)
        x.changed (alone (debit_op req) v u y) y.changed
  in_order false t v u ne x y =
      debit_then_credit _ _ _ _ _ ne x.at y.at x.rows y.rows t v u (alone (debit_op req) t v x)
        x.changed (alone (credit_op req) v u y) y.changed

  ops_Moves :
      (t v u : Tables)
      → req.from_account_id ≢ req.to_account_id
      → Updates env (op_update req ids (balance_ops req).0) t v
      → Updates env (op_update req ids (balance_ops req).1) v u
      → Moves req.from_account_id req.to_account_id req.amount t u
  unfolding balance_ops
  ops_Moves t v u = in_order (ltb req.to_account_id req.from_account_id) t v u

pub different_accounts :
    (req : TransactionRequest)
    → validate_request req ≡ ok tt
    → req.from_account_id ≢ req.to_account_id
unfolding validate_request
different_accounts req h e = ground arith

-- All that a transfer changes: the balances of its accounts, one row of ledger.transactions under a
-- key that had none, and two rows of the journal that cancel out.
pub record Transferred (req : TransactionRequest) (id : Uuid) (at : Time) (t u : Tables)
    : Type 0 where
  pub source : Account
  pub target : Account
  pub source_found : find_account req.from_account_id t.accounts ≡ some source
  pub target_found : find_account req.to_account_id t.accounts ≡ some target
  pub positive : pos 1 ≤ℤ req.amount
  pub covered : req.amount ≤ℤ source.balance
  pub source_after :
      (row : Account) × (find_account req.from_account_id u.accounts ≡ some row)
      × (row.balance ≡ source.balance -ℤ req.amount)
  pub target_after :
      (row : Account) × (find_account req.to_account_id u.accounts ≡ some row)
      × (row.balance ≡ target.balance +ℤ req.amount)
  pub others :
      (x : Uuid)
      → x ≢ req.from_account_id
      → x ≢ req.to_account_id
      → find_account x u.accounts ≡ find_account x t.accounts
  pub new_key : has_key req.idempotency_key t.transactions ≡ false
  pub transactions : u.transactions ≡ stored_row (new_transaction req id at) ∷ t.transactions
  pub journal :
      (p q : Posting) × (u.postings ≡ q ∷ p ∷ t.postings)
      × (p.account_id ≡ req.from_account_id)
      × (p.amount ≡ pos 0 -ℤ req.amount)
      × (q.account_id ≡ req.to_account_id)
      × (q.amount ≡ req.amount)
      × (p.transaction_id ≡ id)
      × (q.transaction_id ≡ id)
  pub cursors : u.cursors ≡ t.cursors

abbrev pub debited_row : TransactionRequest → Transaction → ℕ → Posting
debited_row req trx n = record {
  id = n;
  transaction_id = trx.id;
  account_id = req.from_account_id;
  amount = pos 0 -ℤ req.amount;
}

abbrev pub credited_row : TransactionRequest → Transaction → ℕ → Posting
credited_row req trx n = record {
  id = n;
  transaction_id = trx.id;
  account_id = req.to_account_id;
  amount = req.amount;
}

-- The tables after the rows of the transaction and of the journal, before the balances.
record Posted (req : TransactionRequest) (trx : Transaction) (t v : Tables) : Type 0 where
  row : InsertsTransaction trx t (record t { transactions = stored_row trx ∷ t.transactions })
  accounts : v.accounts ≡ t.accounts
  transactions : v.transactions ≡ stored_row trx ∷ t.transactions
  cursors : v.cursors ≡ t.cursors
  debited : ℕ
  credited : ℕ
  postings : v.postings ≡ credited_row req trx credited ∷ debited_row req trx debited ∷ t.postings

module _ {env : Env} (quiet : IsQuiet env) (req : TransactionRequest) (trx : Transaction) where
  Wrote-Posted : (t u : Tables) (w : Wrote env req trx t u) → Posted req trx t w.posted
  unfolding number_postings
  Wrote-Posted t u w =
      let ins =
        subst (λ v. InsertsTransaction trx v w.headed) (Evolves-quiet quiet w.seen)
          (insert_transaction_ok trx w.before w.headed w.inserted) in
      let e : w.between ≡ record t { transactions = stored_row trx ∷ t.transactions } =
        Evolves-quiet quiet w.seen_between ∙ ins.rows in
      let f =
        subst
          (λ v. w.posted ≡ record v {
            postings =
                credited_row req trx (env.nextval w.call 1)
                ∷ debited_row req trx (env.nextval w.call 0)
                ∷ v.postings;
          })
          e (insert_two_postings_ok _ _ w.between w.posted w.journal) in
      record {
        row = subst (λ v. InsertsTransaction trx t v) ins.rows ins;
        accounts = ap (λ v. v.accounts) f;
        transactions = ap (λ v. v.transactions) f;
        cursors = ap (λ v. v.cursors) f;
        debited = env.nextval w.call 0;
        credited = env.nextval w.call 1;
        postings = ap (λ v. v.postings) f;
      }

module _ {env : Env} (quiet : IsQuiet env) (req : TransactionRequest) (id : Uuid) (at : Time) where
  pub Committed-Transferred :
      (t u : Tables) → Committed env req id at t u → Transferred req id at t u
  Committed-Transferred t u c =
      let w = c.wrote in
      let trx = new_transaction req id at in
      let p = Wrote-Posted quiet req trx t c.written w in
      let m =
        ops_Moves quiet req w.ids w.posted w.halfway c.written (different_accounts req c.valid)
          w.first w.second in
      let e = Evolves-quiet quiet c.kept in
      subst (Transferred req id at t) (sym e) (record {
        source = m.source;
        target = m.target;
        source_found =
            subst (λ l. find_account req.from_account_id l ≡ some m.source) p.accounts
              m.source_found;
        target_found =
            subst (λ l. find_account req.to_account_id l ≡ some m.target) p.accounts m.target_found;
        positive = p.row.positive;
        covered = m.covered;
        source_after = m.source_after;
        target_after = m.target_after;
        others = λ x a b. m.others x a b ∙ ap (find_account x) p.accounts;
        new_key = p.row.new_key;
        transactions = m.transactions ∙ p.transactions;
        journal = (_, _, m.postings ∙ p.postings, refl, refl, refl, refl, refl, refl);
        cursors = m.cursors ∙ p.cursors;
      })
