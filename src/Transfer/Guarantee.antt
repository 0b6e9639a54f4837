-- ===== src/Transfer/Guarantee.antt =====
-- Transfers may run at once: what the consistency of one transfer relies on holds if the other
-- sessions run transfers too. The locks on its rows make the statements of another session's
-- transfer take effect together, at its commit.
use high_load_ledger.Prelude.{
  false, inr, arith, inl, Bool-cases, ℕ, zero, ◌≡◌, refl, sym, ap, subst, ◌∙◌, none, List, [], ◌∷◌,
  ◌==◌, if◌then◌else◌,
}
use high_load_ledger.Prelude.Int.{ℤ}
use high_load_ledger.Entity.{
  Uuid, Time, Transaction, TransactionRequest, Posting, insufficient_funds,
}
use high_load_ledger.Result.{Result, ok, err, ◌>>=◌, ◌>>◌, >>=-eq-ok}
use high_load_ledger.Store.{Tables}
use high_load_ledger.Store.Statements.{insert_transaction, insert_postings}
use high_load_ledger.Store.Ledger.{Ledger, IsConsistent}
use high_load_ledger.World.{Env, World, fine}
use high_load_ledger.World.Frame.{still}
use high_load_ledger.World.Rely.{Respects}
use high_load_ledger.Postgres.{number_postings, posting_ids}
use high_load_ledger.Transfer.Defs.{
  BalanceOp, TransferUseCase, balance_ops, new_transaction, transfer_postings, validate_request,
  transaction,
}
use high_load_ledger.Transfer.Run.{op_update, Updates, Wrote}
use high_load_ledger.Transfer.Effect.{different_accounts}
use high_load_ledger.Transfer.Consistency.{Wrote-Ledger, transaction-IsConsistent}
use high_load_ledger.Transfer.Total.{total_balance, KeepsTotal, Wrote-total, transaction-total}

-- The transfer of another session: its request, and the ids and times that it has drawn.
pub record Commit : Type 0 where
  pub request : TransactionRequest
  pub id : Uuid
  pub created_at : Time
  pub nextval : ℕ → ℕ
  pub first_at : Time
  pub second_at : Time

abbrev row_of : Commit → Transaction
row_of c = new_transaction c.request c.id c.created_at

abbrev journal_of : Commit → List Posting
journal_of c = number_postings c.nextval zero (transfer_postings (row_of c) c.request)

-- An UPDATE that must change a row.
abbrev changing : Result (ℕ × Tables) → Result Tables
changing (err e) = err e
changing (ok (n, t)) = if n == 0 then err insufficient_funds else ok t

abbrev update_of : Commit → BalanceOp → Time → Tables → Result Tables
update_of c op at t = changing (op_update c.request (posting_ids (journal_of c)) op at t)

-- Its statements, on the tables at its commit.
unfoldable pub statements : Commit → Tables → Result Tables
statements c t =
    validate_request c.request
    >> (insert_transaction (row_of c) t >>= λ headed.
        insert_postings (journal_of c) headed >>= λ posted.
        update_of c (balance_ops c.request).0 c.first_at posted >>= λ halfway.
        update_of c (balance_ops c.request).1 c.second_at halfway)

-- What the commit leaves; a transfer that fails is rolled back.
abbrev pub committed : Result Tables → Tables → Tables
committed (ok u) t = u
committed (err e) t = t

abbrev pub commit_all : List Commit → Tables → Tables
commit_all [] t = t
commit_all (c ∷ cs) t = commit_all cs (committed (statements c t) t)

-- The session by itself.
abbrev alone : Commit → Env
alone c = record {
  fault = λ _. fine;
  others = λ _ t. t;
  nextval = λ _ k. c.nextval k;
  new_v7 = λ _. none;
  now = λ n. n;
  intn = λ _ bound. 0;
  context_error = λ _. none;
  expired = λ _ _. false;
}

alone-Respects : (c : Commit) → Respects (alone c)
alone-Respects c = record { keeps = λ _ _ _ _ l. l }

changing-cases :
    (c : Commit) (f : Time → Tables → Result (ℕ × Tables)) (at : Time) (t u : Tables)
    → (r : Result (ℕ × Tables)) → f at t ≡ r
    → changing r ≡ ok u
    → Updates (alone c) f t u
changing-cases c f at t u (err e) eq h = cc h
changing-cases c f at t u (ok (n, x)) eq h = elim (Bool-cases (n == 0)) [
  | inl none_changed ↦ ground (arith, h, none_changed)
  | inr some_changed ↦
      let same : x ≡ u = ground (arith, h, some_changed) in
      record {
        at = at;
        rows = n;
        before = t;
        seen = still;
        result = eq ∙ ap (λ y. ok (n, y)) same;
        changed = some_changed;
      }
]

statements-Wrote :
    (c : Commit) (t u : Tables)
    → statements c t ≡ ok u
    → (validate_request c.request ≡ ok tt) × Wrote (alone c) c.request (row_of c) t u
unfolding statements
statements-Wrote c t u h =
    let (tt', valid, h1) = >>=-eq-ok (validate_request c.request) _ u h in
    let (headed, inserted, h2) = >>=-eq-ok (insert_transaction (row_of c) t) _ u h1 in
    let (posted, journal, h3) = >>=-eq-ok (insert_postings (journal_of c) headed) _ u h2 in
    let (halfway, first, second) =
      >>=-eq-ok (update_of c (balance_ops c.request).0 c.first_at posted)
        (update_of c (balance_ops c.request).1 c.second_at) u h3 in
    (
      valid,
      record {
        before = t;
        seen = still;
        headed = headed;
        inserted = inserted;
        between = headed;
        seen_between = still;
        call = 0;
        posted = posted;
        journal = journal;
        ids = posting_ids (journal_of c);
        returned = refl;
        halfway = halfway;
        first = changing-cases c _ c.first_at posted halfway _ refl first;
        second = changing-cases c _ c.second_at halfway u _ refl second;
      },
    )

committed-keeps :
    (P : Tables → Type 0) (t : Tables) (r : Result Tables)
    → ((u : Tables) → r ≡ ok u → P u)
    → P t
    → P (committed r t)
committed-keeps P t (ok u) done h = done u refl
committed-keeps P t (err e) done h = h

commit_all-keeps :
    (P : Tables → Type 0)
    → ((c : Commit) (t u : Tables) → statements c t ≡ ok u → P t → P u)
    → (cs : List Commit) (t : Tables) → P t
    → P (commit_all cs t)
commit_all-keeps P step [] t h = h
commit_all-keeps P step (c ∷ cs) t h =
    commit_all-keeps P step cs _
      (committed-keeps P t (statements c t) (λ u done. step c t u done h) h)

statements-Ledger :
    (owed : Uuid → ℤ) (ahead : Uuid → ℕ) (c : Commit) (t u : Tables)
    → statements c t ≡ ok u
    → Ledger owed ahead t
    → Ledger owed ahead u
statements-Ledger owed ahead c t u h l =
    let (valid, wrote) = statements-Wrote c t u h in
    Wrote-Ledger (alone-Respects c) c.request (row_of c) owed ahead t u
      (different_accounts c.request valid) wrote l

statements-total :
    (c : Commit) (t u : Tables)
    → statements c t ≡ ok u
    → total_balance u.accounts ≡ total_balance t.accounts
statements-total c t u h =
    Wrote-total (record { keeps_total = λ n v. refl }) c.request (row_of c) t u
      (statements-Wrote c t u h).1

-- What other sessions commit is a sequence of transfers.
pub record OnlyTransfers (env : Env) : Type 0 where
  pub commits : ℕ → Tables → List Commit
  pub shape : (n : ℕ) (t : Tables) → env.others n t ≡ commit_all (commits n t) t

module _ {env : Env} (only : OnlyTransfers env) where
  OnlyTransfers-Respects : Respects env
  OnlyTransfers-Respects = record {
    keeps = λ owed ahead n t l. subst (Ledger owed ahead) (sym (only.shape n t)) (
        commit_all-keeps (Ledger owed ahead) (statements-Ledger owed ahead) (only.commits n t) t l);
  }

  OnlyTransfers-KeepsTotal : KeepsTotal env
  OnlyTransfers-KeepsTotal = record {
    keeps_total = λ n t.
        subst (λ v. total_balance v.accounts ≡ total_balance t.accounts) (sym (only.shape n t))
          (commit_all-keeps (λ v. total_balance v.accounts ≡ total_balance t.accounts)
            (λ c x u done h. statements-total c x u done ∙ h) (only.commits n t) t refl);
  }

-- While other sessions run any transfers, valid or not, each of which takes effect at its commit, a
-- transfer on a consistent ledger leaves a consistent ledger with the same sum of all balances,
-- whatever it returns and whatever calls fail or lose their answers.
pub transaction-concurrent :
    (env : Env) (uc : TransferUseCase) (req : TransactionRequest) (w v : World) (r : Result Uuid)
    → OnlyTransfers env
    → transaction env uc req w ≡ (r, v)
    → IsConsistent w.db
    → IsConsistent v.db × (total_balance v.db.accounts ≡ total_balance w.db.accounts)
transaction-concurrent env uc req w v r only h c =
    let respects = OnlyTransfers-Respects only in
    let keeps = OnlyTransfers-KeepsTotal only in
    (
      transaction-IsConsistent env uc req w v r respects h c,
      transaction-total env uc req w v r keeps h,
    )
