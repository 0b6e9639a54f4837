-- ===== src/Worker/Correction.antt =====
-- `correctBalance`: the balance becomes the sum of all postings, in a transaction of its own.
use high_load_ledger.Prelude.{ℕ, ◌≡◌, refl, subst, ◌∙◌, sym, Bool, true, false, inl}
use high_load_ledger.Prelude.Int.{ℤ}
use high_load_ledger.World.{M, now, lift, pure, ◌>>=◌, active, Env, World}
use high_load_ledger.Result.{Result, ok, err}
use high_load_ledger.Entity.{Time, Uuid}
use high_load_ledger.Worker.Defs.{correct_balance, correction, record_balance_correction}
use high_load_ledger.Postgres.{
  begin, rollback, commit, cast_tx, begin_tx, rollback_tx, read_write, commit_tx, reading, scan_sum,
  in_tx, tx_querier, get_postings_sum, apply_balance_correction,
}
use high_load_ledger.Store.{Tables}
use high_load_ledger.World.Frame.{
  Wp-lift, Wp-bind, Frame-trans, Wp-weaken, Wp-pure, now-Wp, Wp-step, Frame-refl, still, Frame,
  Evolves, Wp,
}
use high_load_ledger.Postgres.Specs.{rollback_tx-Frame, begin_tx-Wp, commit_tx-Wp, in_tx-Wp, Ran}
use high_load_ledger.Postgres.Block.{
  Unsaved-after, not_committing, IsSaved-after, committing, Unsaved, IsSaved, Writes,
}
use high_load_ledger.Store.Statements.{correct}
use high_load_ledger.Store.Rows.{postings_sum}
use high_load_ledger.Worker.Steps.{scan_sum-eq}

-- What the transaction does to its tables: it reads the sum, and then sets the balance. Other
-- sessions may commit between the two.
pub record Corrected (env : Env) (id : Uuid) (t t' : Tables) : Type 0 where
  pub read : Tables
  pub seen : Evolves env t read
  pub before : Tables
  pub seen_between : Evolves env read before
  pub at : Time
  pub rows : ℕ
  pub result : correct id (postings_sum id read.postings) at before ≡ ok (rows, t')

reading-eq :
    {A : Type 0} (a b : A) (t u : Tables)
    → ◌≡◌ {A = Result (A × Tables)} (ok (a, t)) (ok (b, u))
    → (a ≡ b) × (t ≡ u)
reading-eq a b t u h = (cc, cc)

module _ (env : Env) (has_metrics : Bool) (id : Uuid) where
  record_correction-Wp :
      (b : Bool) (w : World)
      → Wp
          (λ _ v. (v.session ≡ w.session) × Frame env w v)
          (λ v. Frame env w v)
          (record_balance_correction b w)
  unfolding record_balance_correction Wp
  record_correction-Wp true w = (refl, record { db = still; published = refl; transfers = refl })
  record_correction-Wp false w = (refl, Frame-refl w)

  apply-Wp :
      (amount : ℤ) (t : Tables) (w : World)
      → w.session ≡ active t
      → Wp
          (λ _ v. (at : Time) × (n : ℕ) × Ran env (correct id amount at) t n v × Frame env w v)
          (λ v. Frame env w v)
          (apply_balance_correction env tx_querier id amount w)
  unfolding apply_balance_correction
  apply-Wp amount t w h =
      let k2 = λ (_ : ℕ). pure tt in
      let k1 = λ (at : Time). in_tx env (correct id amount at) >>= k2 in
      Wp-step _ (now env) k1 (Frame-refl w) (now-Wp env w) λ at w1 (s1, f1).
        Wp-step _ (in_tx env (correct id amount at)) k2 f1
          (in_tx-Wp env (correct id amount at) t w1 (s1 ∙ h))
          λ n w2 (r, f2). Wp-pure _ _ tt w2 (at, n, r, Frame-trans f1 f2)

  pub correction-Writes : Writes env (Corrected env id) (correction env has_metrics id)
  unfolding correction get_postings_sum
  correction-Writes t w h =
      let whole = λ (u : Tables). postings_sum id u.postings in
      let k3 = λ (_ : Unit {0}). record_balance_correction has_metrics in
      let k2 = λ (s : ℤ). apply_balance_correction env tx_querier id s >>= k3 in
      let k1 = λ (s : ℤ). lift (scan_sum s) in
      Wp-step _ (in_tx env (reading whole) >>= k1) k2 (Frame-refl w)
        (Wp-step (λ s v. Ran env (reading whole) t s v × Frame env w v) (in_tx env (reading whole))
          k1 (Frame-refl w) (in_tx-Wp env (reading whole) t w h)
          λ s v (r, fr).
            Wp-lift _ _ (scan_sum s) v
              (λ s' e.
                (subst (λ z. Ran env (reading whole) t z v) (sym (scan_sum-eq env s s' e)) r, fr))
              fr)
        λ s w1 (r, f1).
          Wp-step _ (apply_balance_correction env tx_querier id s) k3 f1
            (apply-Wp s r.after w1 r.session)
            λ _ w2 (at, n, q, f2).
              let (sum, kept) = reading-eq _ s r.before r.after r.result in
              Wp-weaken _ _ _ (record_correction-Wp has_metrics w2)
                (λ _ v (s3, f3). (
                  q.after,
                  record {
                    read = r.before;
                    seen = r.seen;
                    before = q.before;
                    seen_between = subst (λ u. Evolves env u q.before) (sym kept) q.seen;
                    at = at;
                    rows = n;
                    result =
                        subst (λ z. correct id z at q.before ≡ ok (n, q.after)) (sym sum) q.result;
                  },
                  s3 ∙ q.session,
                  Frame-trans f1 (Frame-trans f2 f3),
                ))
                (λ v f3. Frame-trans f1 (Frame-trans f2 f3))

-- `ReadWrite` of statements `fn`, which Ends its transaction on every branch.
module _ (env : Env) (P : Tables → Tables → Type 0) where
  ended-Wp :
      (w : World) (o : Result (Unit {0}) × World)
      → Wp
          (λ _ v. (t : Tables) × P w.db t × (v.session ≡ active t) × Frame env w v)
          (λ v. Frame env w v)
          o
      → Wp
          (λ _ v. IsSaved env P w v)
          (λ v. Unsaved env P w v)
          (elim o.0 as (λ _. Result (Unit {0}) × World) [
            | ok _ ↦ commit env o.1
            | err e ↦ (err e, (rollback env o.1).1)
          ])
  unfolding Wp commit_tx rollback_tx cast_tx
  ended-Wp w (ok tt, u) (t, p, s, fr) =
      Wp-weaken (λ _ v. IsSaved env P w v) (λ v. Unsaved env P w v) (commit env u)
        (commit_tx-Wp env t u s) (λ _ v c. committing env P t w u v p fr c)
        (λ v r. not_committing env P t w u v p fr r)
  ended-Wp w (err e, u) fr = inl (Frame-trans fr (rollback_tx-Frame env u))

  pub read_write-Wp :
      (fn : M (Unit {0})) (w : World)
      → Writes env P fn
      → Wp (λ _ v. IsSaved env P w v) (λ v. Unsaved env P w v) (read_write env fn w)
  unfolding read_write begin_tx
  read_write-Wp fn w h =
      Wp-bind _ _ (begin env) _ w (Wp-weaken _ _ _ (begin_tx-Wp env w) (λ _ _ p. p) (λ _. inl))
        λ tx w1 (e, s, fr).
          Wp-weaken _ _ _ (ended-Wp w1 (fn w1) (h w1.db w1 s))
            (λ _ v. IsSaved-after env P w w1 v fr) (λ v. Unsaved-after env P w w1 v fr)

module _ (env : Env) (has_metrics : Bool) (id : Uuid) where
  pub correct_balance-Wp :
      (w : World)
      → Wp
          (λ _ v. IsSaved env (Corrected env id) w v)
          (λ v. Unsaved env (Corrected env id) w v)
          (correct_balance env has_metrics id w)
  unfolding correct_balance
  correct_balance-Wp w =
      read_write-Wp env (Corrected env id) (correction env has_metrics id) w
        (correction-Writes env has_metrics id)
