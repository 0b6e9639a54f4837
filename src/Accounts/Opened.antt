-- ===== src/Accounts/Opened.antt =====
-- The statements that open an account, in order, with the tables between them.
use high_load_ledger.Prelude.{
  subst, ◌∙◌, Bool-cases, arith, List, zero, ℕ, ◌≡◌, refl, ◌∷◌, [], true, false, inl, inr, ◌⊎◌,
}
use high_load_ledger.Prelude.Int.{ℤ, pos, ltb_ℤ}
use high_load_ledger.Postgres
use high_load_ledger.World.{lift, now, ◌>>=◌, new_v7, pgx_tx, active, World, Env}
use high_load_ledger.Entity.{missing_posting_id, Time, Uuid, Posting, Transaction, Account}
use high_load_ledger.Postgres.{
  credit_balance, create_postings, create_transaction, number_postings, lookup_id, posting_ids,
}
use high_load_ledger.Accounts.{
  opening_transaction, opening_posting, write_account, open_balance, fund,
}
use high_load_ledger.Store.Statements.{
  credit, insert_posting, insert_account, insert_transaction, insert_postings,
}
use high_load_ledger.Store.{Tables}
use high_load_ledger.World.Frame.{
  lift-Wp, now-Wp, Frame-trans, Wp-pure, new_v7-Wp, Wp-weaken, Frame-refl, Frame, Wp-step, Wp,
  Evolves,
}
use high_load_ledger.Postgres.Block.{Writes}
use high_load_ledger.Result.{or_error, ok}
use high_load_ledger.Transfer.Run.{Updated-Updates, After, Updates}
use high_load_ledger.Postgres.Specs.{returning_ids-eq-ok, no_rows-eq-ok}
use high_load_ledger.Postgres.Calls.{
  credit_balance-Wp, create_one_posting-Wp, create_account-Wp, create_transaction-Wp,
}

-- What `if balance > 0 { … }` writes on top of the tables `t`.
pub record Funded (env : Env) (trx : Transaction) (t t' : Tables) : Type 0 where
  pub before : Tables
  pub seen : Evolves env t before
  pub headed : Tables
  pub inserted : insert_transaction trx before ≡ ok headed
  pub between : Tables
  pub seen_between : Evolves env headed between
  -- the id that the sequence gave to the posting
  pub posting_id : ℕ
  pub posted : Tables
  pub journal :
      insert_posting (record (opening_posting trx) { id = posting_id }) between ≡ ok posted
  pub credited : Updates env (credit trx.to_account_id trx.amount posting_id) posted t'

-- The row of the account, and its opening balance if there is one.
pub record Opened (env : Env) (acc : Account) (balance : ℤ) (t t' : Tables) : Type 0 where
  pub before : Tables
  pub seen : Evolves env t before
  pub added : Tables
  pub inserted : insert_account acc before ≡ ok added
  pub funded :
      ((ltb_ℤ (pos 0) balance ≡ false) × (t' ≡ added))
      ⊎ ((ltb_ℤ (pos 0) balance ≡ true)
          × ((key : Uuid) × (id : Uuid) × (at : Time) × Funded env
                (opening_transaction acc balance key id at)
                added
                t'))

lookup_one :
    (p : Posting) (a : Uuid) (ids : List (Uuid × ℕ)) (n : ℕ)
    → p.account_id ≡ a
    → ids ≡ posting_ids (p ∷ [])
    → or_error (lookup_id a ids) missing_posting_id ≡ ok n
    → n ≡ p.id
unfolding posting_ids lookup_id
lookup_one p a ids n e h l = ground arith

one_posting :
    (p : Posting) (t t' : Tables) → insert_postings (p ∷ []) t ≡ ok t' → insert_posting p t ≡ ok t'
unfolding insert_postings
one_posting p t t' h = ground arith

module _ (env : Env) where
  fund-Wp :
      (trx : Transaction) (t : Tables) (w : World)
      → w.session ≡ active t
      → Wp (λ _ v. After env (Funded env trx t) w v) (λ v. Frame env w v) (fund env pgx_tx trx w)
  unfolding fund number_postings
  fund-Wp trx t w h =
      Wp-step _ (create_transaction env pgx_tx trx) _ (Frame-refl w)
        (create_transaction-Wp env trx t w h)
        λ _ w1 (r0, f0).
          Wp-step _ (create_postings env pgx_tx (opening_posting trx ∷ [])) _ f0
            (create_one_posting-Wp env (opening_posting trx) r0.after w1 r0.session)
            λ ids w2 (r1, f1).
              let eqs = returning_ids-eq-ok _ ids r1.before r1.after r1.result in
              let found = or_error (lookup_id trx.to_account_id ids) missing_posting_id in
              let k = λ (n : ℕ). credit_balance env pgx_tx trx.to_account_id trx.amount n in
              Wp-step _ (lift found) k (Frame-trans f0 f1) (lift-Wp env found w2)
                λ n w3 (e, s3, f3).
                  let same = lookup_one _ trx.to_account_id ids n refl eqs.1 e in
                  Wp-weaken _ _ _ (credit_balance-Wp env _ _ n r1.after w3 (s3 ∙ r1.session))
                    (λ _ v u.
                      let (t4, u4, s4, f4) = Updated-Updates env _ r1.after w3 v u in
                      (
                        t4,
                        record {
                          before = r0.before;
                          seen = r0.seen;
                          headed = r0.after;
                          inserted = no_rows-eq-ok _ _ _ r0.result;
                          between = r1.before;
                          seen_between = r1.seen;
                          posting_id = env.nextval w1.clock zero;
                          posted = r1.after;
                          journal = one_posting _ _ _ eqs.0;
                          credited =
                              subst
                                (λ j.
                                  Updates env (credit trx.to_account_id trx.amount j) r1.after t4)
                                same u4;
                        },
                        s4,
                        Frame-trans f0 (Frame-trans f1 (Frame-trans f3 f4)),
                      ))
                    (λ v f4. Frame-trans f0 (Frame-trans f1 (Frame-trans f3 f4)))

  Funded-Wp :
      (acc : Account) (balance : ℤ) (t : Tables) (w : World)
      → w.session ≡ active t
      → Wp
          (λ _ v.
            After env
              (λ t'.
                (key : Uuid) × (id : Uuid) × (at : Time) × Funded env
                  (opening_transaction acc balance key id at)
                  t
                  t')
              w
              v)
          (λ v. Frame env w v)
          ((new_v7 env >>= λ key. new_v7 env >>= λ id.
              now env >>= λ at. fund env pgx_tx (opening_transaction acc balance key id at))
            w)
  Funded-Wp acc balance t w h =
      Wp-step _ (new_v7 env)
        (λ key. new_v7 env >>= λ id.
          now env >>= λ at. fund env pgx_tx (opening_transaction acc balance key id at))
        (Frame-refl w) (new_v7-Wp env w)
        λ key w1 (s1, f1).
          Wp-step _ (new_v7 env)
            (λ id. now env >>= λ at. fund env pgx_tx (opening_transaction acc balance key id at)) f1
            (new_v7-Wp env w1)
            λ id w2 (s2, f2).
              Wp-step _ (now env)
                (λ at. fund env pgx_tx (opening_transaction acc balance key id at))
                (Frame-trans f1 f2) (now-Wp env w2)
                λ at w3 (s3, f3).
                  let fr = Frame-trans f1 (Frame-trans f2 f3) in
                  Wp-weaken _ _ _
                    (fund-Wp (opening_transaction acc balance key id at) t w3 (s3 ∙ s2 ∙ s1 ∙ h))
                    (λ _ v (t', p, s, f). (t', (key, id, at, p), s, Frame-trans fr f))
                    (λ v f. Frame-trans fr f)

  open_balance-Wp :
      (acc : Account) (balance : ℤ) (t : Tables) (w : World)
      → w.session ≡ active t
      → Wp
          (λ _ v.
            After env
              (λ t'.
                ((ltb_ℤ (pos 0) balance ≡ false) × (t' ≡ t))
                ⊎ ((ltb_ℤ (pos 0) balance ≡ true)
                    × ((key : Uuid) × (id : Uuid) × (at : Time) × Funded env
                          (opening_transaction acc balance key id at)
                          t
                          t')))
              w
              v)
          (λ v. Frame env w v)
          (open_balance env pgx_tx acc balance w)
  unfolding open_balance
  open_balance-Wp acc balance t w h = elim (Bool-cases (ltb_ℤ (pos 0) balance)) [
    | inl e ↦ rw e (
        Wp-weaken _ _ _ (Funded-Wp acc balance t w h)
          (λ _ v (t', p, s, f). (t', inr (refl, p), s, f)) (λ v f. f))
    | inr e ↦ rw e (Wp-pure _ _ tt w (t, inl (refl, refl), h, Frame-refl w))
  ]

  pub write_account-Writes :
      (acc : Account) (balance : ℤ)
      → Writes env (Opened env acc balance) (write_account env pgx_tx acc balance)
  unfolding write_account
  write_account-Writes acc balance t w h =
      Wp-step _ (Postgres.create_account env pgx_tx acc) (λ _. open_balance env pgx_tx acc balance)
        (Frame-refl w) (create_account-Wp env acc t w h)
        λ _ w1 (r, f1).
          Wp-weaken _ _ _ (open_balance-Wp acc balance r.after w1 r.session)
            (λ _ v (t', p, s, f). (
              t',
              record {
                before = r.before;
                seen = r.seen;
                added = r.after;
                inserted = no_rows-eq-ok _ _ _ r.result;
                funded = p;
              },
              s,
              Frame-trans f1 f,
            ))
            (λ v f. Frame-trans f1 f)
