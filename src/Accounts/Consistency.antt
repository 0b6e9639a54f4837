-- ===== src/Accounts/Consistency.antt =====
-- Opening an account keeps the ledger consistent.
use high_load_ledger.Prelude.{Bool-cases, ◌≡◌, refl, sym, subst, ◌==◌, inl, inr, arith}
use high_load_ledger.Prelude.Int.{ℤ, pos, int_laws}
use high_load_ledger.World.{World, Env}
use high_load_ledger.World.Rely.{Evolves-IsConsistent, Evolves-Ledger, Respects}
use high_load_ledger.Entity.{Posting, Uuid, Account, Transaction, Currency}
use high_load_ledger.World.Frame.{Wp}
use high_load_ledger.Store.{Tables}
use high_load_ledger.Accounts.Created.{create_account-Wp, NotCreated, Created}
use high_load_ledger.Result.{err, ok, Result}
use high_load_ledger.Store.Ledger.{
  credit-Ledger, insert_posting-Ledger, Ledger-IsConsistent, insert_transaction-Ledger,
  IsConsistent-Ledger, IsConsistent,
}
use high_load_ledger.Store.Opening.{insert_account-Ledger}
use high_load_ledger.Accounts.Opened.{Funded, Opened}
use high_load_ledger.Accounts.{create_account, opening_posting}

module _ {env : Env} (respects : Respects env) where
  Funded-IsConsistent :
      (trx : Transaction) (t u : Tables) → Funded env trx t u → IsConsistent t → IsConsistent u
  Funded-IsConsistent trx t u f h =
      let start = Evolves-Ledger respects f.seen (IsConsistent-Ledger t h) in
      let headed = insert_transaction-Ledger trx f.before f.headed f.inserted start in
      let between = Evolves-Ledger respects f.seen_between headed in
      let p : Posting = record (opening_posting trx) { id = f.posting_id } in
      let posted = insert_posting-Ledger p f.between f.posted f.journal between in
      let seen = Evolves-Ledger respects f.credited.seen posted in
      let credited =
        credit-Ledger trx.to_account_id trx.amount f.posting_id f.credited.at f.credited.rows
          f.credited.before u f.credited.result f.credited.changed seen in
      Ledger-IsConsistent _ _ u
        (λ x. elim (Bool-cases (trx.to_account_id == x)) [
          | inl e ↦ rw e (omega int_laws)
          | inr e ↦ rw e refl
        ])
        (λ x. elim (Bool-cases (trx.to_account_id == x)) [
          | inl e ↦ rw e (ground arith)
          | inr e ↦ rw e refl
        ])
        credited

  Opened-IsConsistent :
      (acc : Account) (balance : ℤ) (t u : Tables)
      → acc.balance ≡ pos 0
      → Opened env acc balance t u
      → IsConsistent t
      → IsConsistent u
  Opened-IsConsistent acc balance t u z o h =
      let start = Evolves-Ledger respects o.seen (IsConsistent-Ledger t h) in
      let added =
        Ledger-IsConsistent _ _ o.added (λ _. refl) (λ _. refl)
          (insert_account-Ledger acc o.before o.added z o.inserted start) in
      elim o.funded [
        | inl (_, e) ↦ subst IsConsistent (sym e) added
        | inr (_, (key, id, at, f)) ↦ Funded-IsConsistent _ o.added u f added
      ]

  Created-IsConsistent :
      (c : Currency) (id : Uuid) (w v : World)
      → Created env c id w v
      → IsConsistent w.db
      → IsConsistent v.db
  Created-IsConsistent c id w v x h =
      let s = x.saved.saved in
      Evolves-IsConsistent respects s.kept (
        Opened-IsConsistent _ _ s.before s.after refl s.wrote
          (Evolves-IsConsistent respects s.seen h))

  Outcome-IsConsistent :
      (c : Currency) (w v : World) (r : Result Uuid)
      → Wp (λ i u. Created env c i w u) (λ u. NotCreated env c w u) (r, v)
      → IsConsistent w.db
      → IsConsistent v.db
  unfolding Wp
  Outcome-IsConsistent c w v (ok id) x h = Created-IsConsistent c id w v x h
  Outcome-IsConsistent c w v (err e) (inl g) h = Evolves-IsConsistent respects g.db h
  Outcome-IsConsistent c w v (err e) (inr (_, _, _, (id, x))) h = Created-IsConsistent c id w v x h

-- Opening an account, with its balance and its posting, leaves a consistent ledger consistent,
-- whatever it returns, whatever calls fail or lose their answers, and whatever other sessions commit
-- meanwhile, as long as they change a balance together with the journal.
pub create_account-IsConsistent :
    (env : Env) (c : Currency) (w v : World) (r : Result Uuid)
    → Respects env
    → create_account env c w ≡ (r, v)
    → IsConsistent w.db
    → IsConsistent v.db
create_account-IsConsistent env c w v r respects h = Outcome-IsConsistent respects c w v r (
    subst (Wp (λ i u. Created env c i w u) (λ u. NotCreated env c w u)) h
      (create_account-Wp env c w))
