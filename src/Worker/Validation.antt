-- ===== src/Worker/Validation.antt =====
-- What `ValidateBalance` does to the tables while no other session writes.
use high_load_ledger.Prelude.{
  arith, Bool-cases, ltb, if◌then◌else◌, eq_of_some, ℕ, zero, suc, ◌≤◌, ◌≡◌, ap, subst, ◌∙◌, sym,
  Bool, true, inl, inr, ◌⊎◌, some,
}
use high_load_ledger.Prelude.Int.{eq_of_eq_ℤ, eq_ℤ, ℤ}
use high_load_ledger.World.{pure, IsQuiet, Env, World, ◌>>=◌}
use high_load_ledger.Result.{ok}
use high_load_ledger.Entity.{Time, Account, Uuid}
use high_load_ledger.Store.{Tables}
use high_load_ledger.Worker.Steps.{get_postings_sum-Wp, snapshot-Wp, context_err-Wp, limited_sum}
use high_load_ledger.Store.Rows.{latest_posting, postings_sum, find_account}
use high_load_ledger.World.Frame.{Wp-pure, Wp-bind, Wp-weaken, Evolves-quiet, Wp, Frame}
use high_load_ledger.Postgres.Block.{Saved, Unsaved}
use high_load_ledger.Worker.Defs.{
  max_balance_version_steps, PostingWorker, validate_balance, context_err, correct_balance,
  version_steps,
}
use high_load_ledger.Postgres.{get_postings_sum, pool_querier, get_account_balance_snapshot}
use high_load_ledger.Worker.Correction.{correct_balance-Wp, Corrected}
use high_load_ledger.Store.Statements.{correct}
use high_load_ledger.Store.Laws.{correct_ok, UpdatesRow}

-- The balance of the account is set to the sum of its postings, and nothing else changes.
pub record Repaired (id : Uuid) (row : Account) (t u : Tables) : Type 0 where
  pub at : Time
  pub update : UpdatesRow id (postings_sum id t.postings) (latest_posting id t.postings) at row t u

-- The balance agrees with the postings up to a limit that leaves none out which the account knows.
pub record Agrees (id : Uuid) (row : Account) (batch_max : ℕ) (t : Tables) : Type 0 where
  pub upper : ℕ
  pub past_batch : batch_max ≤ upper
  pub past_latest : row.latest_posting_id ≤ upper
  pub equal : row.balance ≡ limited_sum id upper t

module _ (env : Env) (quiet : IsQuiet env) (has_metrics : Bool) (id : Uuid) (t : Tables)
    (row : Account) (found : find_account id t.accounts ≡ some row) where
  same_db : {w v : World} → w.db ≡ t → Frame env w v → v.db ≡ t
  same_db e fr = Evolves-quiet quiet fr.db ∙ e

  repaired : (s u : Tables) → s ≡ t → Saved env (Corrected env id) s u → Repaired id row t u
  repaired s u e x =
      let c = x.wrote in
      let read = Evolves-quiet quiet c.seen ∙ Evolves-quiet quiet x.seen ∙ e in
      let before = Evolves-quiet quiet c.seen_between ∙ read in
      let kept = Evolves-quiet quiet x.kept in
      let r1 =
        subst (λ z. correct id (postings_sum id z.postings) c.at c.before ≡ ok (c.rows, x.after))
          read c.result in
      let r2 =
        subst (λ z. correct id (postings_sum id t.postings) c.at z ≡ ok (c.rows, x.after)) before
          r1 in
      elim (correct_ok id (postings_sum id t.postings) c.at c.rows t x.after r2) [
        | inl (missing, _) ↦ absurd (cc (found, missing))
        | inr (r, up) ↦
            let same = eq_of_some r row (sym up.found ∙ found) in
            record {
              at = c.at;
              update =
                  subst
                    (λ z.
                      UpdatesRow id (postings_sum id t.postings) (latest_posting id t.postings) c.at
                        row t z)
                    (sym kept)
                    (subst
                      (λ q.
                        UpdatesRow id (postings_sum id t.postings) (latest_posting id t.postings)
                          c.at q t x.after)
                      same up);
            }
      ]

  abbrev Ends : ℕ → World → Type 0
  Ends m v = ((v.db ≡ t) × Agrees id row m t) ⊎ Repaired id row t v.db

  abbrev Fails : World → Type 0
  Fails v = (v.db ≡ t) ⊎ Repaired id row t v.db

  Unsaved-Fails : (w v : World) → w.db ≡ t → Unsaved env (Corrected env id) w v → Fails v
  Unsaved-Fails w v e (inl g) = inl (same_db e g)
  Unsaved-Fails w v e (inr (_, _, _, s)) = inr (repaired w.db v.db e s.saved)

  correct_balance-Ends :
      (m : ℕ) (w : World)
      → w.db ≡ t
      → Wp (λ _ v. Ends m v) (λ v. Fails v) (correct_balance env has_metrics id w)
  correct_balance-Ends m w e =
      Wp-weaken _ _ _ (correct_balance-Wp env has_metrics id w)
        (λ _ v s. inr (repaired w.db v.db e s.saved)) (λ v u. Unsaved-Fails w v e u)

  -- The row that a snapshot saw is the one that stands there.
  seen_row :
      (s : ℤ × ℕ) (v : World)
      → v.db ≡ t
      → (r : Account) × (find_account id v.db.accounts ≡ some r)
        × (s ≡ (r.balance, r.latest_posting_id))
      → s ≡ (row.balance, row.latest_posting_id)
  seen_row s v e (r, f, q) =
      let same = eq_of_some r row (sym f ∙ ap (λ z. find_account id z.accounts) e ∙ found) in
      q ∙ ap (λ z. (z.balance, z.latest_posting_id)) same

  agreeing :
      (m eff : ℕ) (s : ℤ × ℕ) (sum : ℤ) (u : Tables)
      → m ≤ eff
      → s ≡ (row.balance, row.latest_posting_id)
      → sum ≡ s.0
      → sum ≡ limited_sum id (if ltb eff s.1 then s.1 else eff) u
      → u ≡ t
      → Agrees id row m t
  agreeing m eff s sum u le q same h e =
      let upper = if ltb eff s.1 then s.1 else eff in
      let latest : (s.1 ≡ row.latest_posting_id) = ap (λ z. z.1) q in
      record {
        upper = upper;
        past_batch = ground arith;
        past_latest = ground arith;
        equal = sym (ap (λ z. z.0) q) ∙ sym same ∙ h ∙ ap (limited_sum id upper) e;
      }

  larger :
      (m eff latest refreshed : ℕ)
      → m ≤ eff
      → ltb (if ltb eff latest then latest else eff) refreshed ≡ true
      → m ≤ refreshed
  larger m eff latest refreshed le h = ground arith

  version_steps-Ends :
      (m steps eff : ℕ) (w : World)
      → m ≤ eff
      → w.db ≡ t
      → Wp (λ _ v. Ends m v) (λ v. Fails v) (version_steps env has_metrics id steps eff w)
  unfolding version_steps
  version_steps-Ends m zero eff w le e = correct_balance-Ends m w e
  version_steps-Ends m (suc steps) eff w le e =
      let snap = get_account_balance_snapshot env pool_querier id in
      let upper_of = λ (s : ℤ × ℕ). if ltb eff s.1 then s.1 else eff in
      let k3 = λ (upper : ℕ) (r : ℤ × ℕ).
        if ltb upper r.1
        then version_steps env has_metrics id steps r.1
        else correct_balance env has_metrics id in
      let k2 =
        λ (s : ℤ × ℕ) (sum : ℤ). if eq_ℤ sum s.0 then pure tt else (snap >>= k3 (upper_of s)) in
      let k1 = λ (s : ℤ × ℕ). get_postings_sum env pool_querier id (upper_of s) >>= k2 s in
      Wp-bind _ _ (context_err env) (λ _. snap >>= k1) w
        (Wp-weaken _ _ _ (context_err-Wp env w) (λ _ _ f. f) (λ v f. inl (same_db e f)))
        λ _ w1 f1.
          let e1 = same_db e f1 in
          Wp-bind _ _ snap k1 w1
            (Wp-weaken _ _ _ (snapshot-Wp env id w1) (λ _ _ p. p) (λ v f. inl (same_db e1 f)))
            λ s w2 (p, f2).
              let e2 = same_db e1 f2 in
              let q = seen_row s w2 e2 p in
              Wp-bind _ _ (get_postings_sum env pool_querier id (upper_of s)) (k2 s) w2
                (Wp-weaken _ _ _ (get_postings_sum-Wp env id (upper_of s) w2) (λ _ _ p. p)
                  (λ v f. inl (same_db e2 f)))
                λ sum w3 (h, f3).
                  let e3 = same_db e2 f3 in
                  elim (Bool-cases (eq_ℤ sum s.0)) [
                    | inl same ↦ rw same (
                        Wp-pure _ _ tt w3 (
                          inl (e3, agreeing m eff s sum w3.db le q (eq_of_eq_ℤ sum s.0 same) h e3)))
                    | inr differs ↦ rw differs (
                        Wp-bind _ _ snap (k3 (upper_of s)) w3
                          (Wp-weaken _ _ _ (snapshot-Wp env id w3) (λ _ _ p. p)
                            (λ v f. inl (same_db e3 f)))
                          λ r w4 (_, f4). elim (Bool-cases (ltb (upper_of s) r.1)) [
                            | inl more ↦ rw more (
                                version_steps-Ends m steps r.1 w4 (larger m eff s.1 r.1 le more)
                                  (same_db e3 f4))
                            | inr done ↦ rw done (correct_balance-Ends m w4 (same_db e3 f4))
                          ])
                  ]

  pub validate_balance-Ends :
      (pw : PostingWorker) (m : ℕ) (w : World)
      → pw.has_metrics ≡ has_metrics
      → w.db ≡ t
      → Wp (λ _ v. Ends m v) (λ v. Fails v) (validate_balance env pw id m w)
  unfolding validate_balance
  validate_balance-Ends pw m w k e =
      rw k (version_steps-Ends m max_balance_version_steps m w (omega arith) e)
