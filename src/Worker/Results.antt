-- ===== src/Worker/Results.antt =====
-- What the caller of `ValidateBalance` may conclude.
use high_load_ledger.Prelude.{
  ltb, if◌then◌else◌, Bool-cases, ℕ, suc, ◌≤◌, ◌≡◌, refl, ap, subst, ◌∙◌, sym, Bool, true, inl, inr,
  ◌⊎◌, some, arith,
}
use high_load_ledger.Prelude.Int.{eq_ℤ_self, eq_ℤ, ℤ}
use high_load_ledger.World.{◌>>=◌, pure, IsQuiet, Env, World}
use high_load_ledger.Result.{Result, ok, err}
use high_load_ledger.Entity.{Account, Uuid}
use high_load_ledger.World.Frame.{Wp-pure, Wp-weaken, Wp-bind, Evolves-quiet, Frame, Wp}
use high_load_ledger.Worker.Defs.{
  context_err, correct_balance, version_steps, validate_balance, PostingWorker,
}
use high_load_ledger.Store.{Tables}
use high_load_ledger.Store.Rows.{find_account, postings_sum, latest_posting}
use high_load_ledger.Worker.Steps.{get_postings_sum-Wp, snapshot-Wp, context_err-Wp, limited_sum}
use high_load_ledger.Worker.Validation.{validate_balance-Ends, Repaired, Agrees}
use high_load_ledger.Store.Ledger.{IsConsistent}
use high_load_ledger.Store.Laws.{UpdatesRow-rest, UpdatesRow-find_self}
use high_load_ledger.Postgres.{get_postings_sum, pool_querier, get_account_balance_snapshot}
use high_load_ledger.Worker.Sums.{postings_sum_to-eq}

limited_sum-whole :
    (id : Uuid) (upper : ℕ) (t : Tables)
    → latest_posting id t.postings ≤ upper
    → limited_sum id upper t ≡ postings_sum id t.postings
limited_sum-whole id upper t le = elim (Bool-cases (ltb 0 upper)) [
  | inl limit ↦ rw limit (postings_sum_to-eq id upper t.postings le)
  | inr unlimited ↦ rw unlimited refl
]

module _ (env : Env) (quiet : IsQuiet env) (has_metrics : Bool) (id : Uuid) (t : Tables)
    (c : IsConsistent t) where
  limited_sum-eq :
      (upper : ℕ) (row : Account)
      → find_account id t.accounts ≡ some row
      → row.latest_posting_id ≤ upper
      → limited_sum id upper t ≡ row.balance
  limited_sum-eq upper row f le =
      limited_sum-whole id upper t (omega (arith, le, c.recorded id row f))
      ∙ sym (c.balanced id row f)

  no_difference :
      (eff : ℕ) (s : ℤ × ℕ) (sum : ℤ) (w2 w3 : World)
      → w2.db ≡ t
      → w3.db ≡ t
      → (r : Account) × (find_account id w2.db.accounts ≡ some r)
        × (s ≡ (r.balance, r.latest_posting_id))
      → sum ≡ limited_sum id (if ltb eff s.1 then s.1 else eff) w3.db
      → eq_ℤ sum s.0 ≡ true
  no_difference eff s sum w2 w3 e2 e3 (r, f, q) h =
      let upper = if ltb eff s.1 then s.1 else eff in
      let latest : (s.1 ≡ r.latest_posting_id) = ap (λ z. z.1) q in
      let found = ap (λ z. find_account id z.accounts) (sym e2) ∙ f in
      let balance = limited_sum-eq upper r found (ground arith) in
      let equal = h ∙ ap (limited_sum id upper) e3 ∙ balance ∙ sym (ap (λ z. z.0) q) in
      subst (λ z. eq_ℤ sum z ≡ true) equal (eq_ℤ_self sum)

  settled_steps :
      (steps eff : ℕ) (w : World)
      → w.db ≡ t
      → Wp (λ _ v. v.db ≡ t) (λ v. v.db ≡ t) (version_steps env has_metrics id (suc steps) eff w)
  unfolding version_steps
  settled_steps steps eff w e =
      let snap = get_account_balance_snapshot env pool_querier id in
      let upper_of = λ (s : ℤ × ℕ). if ltb eff s.1 then s.1 else eff in
      let k3 = λ (upper : ℕ) (r : ℤ × ℕ).
        if ltb upper r.1
        then version_steps env has_metrics id steps r.1
        else correct_balance env has_metrics id in
      let k2 =
        λ (s : ℤ × ℕ) (sum : ℤ). if eq_ℤ sum s.0 then pure tt else (snap >>= k3 (upper_of s)) in
      let k1 = λ (s : ℤ × ℕ). get_postings_sum env pool_querier id (upper_of s) >>= k2 s in
      let same =
        λ (v v' : World) (q : v.db ≡ t) (f : Frame env v v'). Evolves-quiet quiet f.db ∙ q in
      Wp-bind _ _ (context_err env) (λ _. snap >>= k1) w
        (Wp-weaken _ _ _ (context_err-Wp env w) (λ _ _ f. f) (λ v f. same w v e f))
        λ _ w1 f1.
          let e1 = same w w1 e f1 in
          Wp-bind _ _ snap k1 w1
            (Wp-weaken _ _ _ (snapshot-Wp env id w1) (λ _ _ p. p) (λ v f. same w1 v e1 f))
            λ s w2 (p, f2).
              let e2 = same w1 w2 e1 f2 in
              Wp-bind _ _ (get_postings_sum env pool_querier id (upper_of s)) (k2 s) w2
                (Wp-weaken _ _ _ (get_postings_sum-Wp env id (upper_of s) w2) (λ _ _ q. q)
                  (λ v f. same w2 v e2 f))
                λ sum w3 (h, f3).
                  let e3 = same w2 w3 e2 f3 in
                  rw (no_difference eff s sum w2 w3 e2 e3 p h) (Wp-pure _ _ tt w3 e3)

either_way :
    (P : World → Type 0) (r : Result (Unit {0})) (v : World)
    → Wp (λ _ u. P u) (λ u. P u) (r, v)
    → P v
unfolding Wp
either_way P (ok tt) v h = h
either_way P (err e) v h = h

forget_agreement :
    (id : Uuid) (row : Account) (m : ℕ) (t : Tables) (r : Result (Unit {0})) (v : World)
    → Wp
        (λ _ u. ((u.db ≡ t) × Agrees id row m t) ⊎ Repaired id row t u.db)
        (λ u. (u.db ≡ t) ⊎ Repaired id row t u.db)
        (r, v)
    → (v.db ≡ t) ⊎ Repaired id row t v.db
unfolding Wp
forget_agreement id row m t (ok tt) v (inl (e, _)) = inl e
forget_agreement id row m t (ok tt) v (inr x) = inr x
forget_agreement id row m t (err _) v h = h

balanced_after :
    (id : Uuid) (row : Account) (m : ℕ) (t u : Tables)
    → find_account id t.accounts ≡ some row
    → latest_posting id t.postings ≤ row.latest_posting_id
    → ((u ≡ t) × Agrees id row m t) ⊎ Repaired id row t u
    → (r : Account) × (find_account id u.accounts ≡ some r)
      × (r.balance ≡ postings_sum id u.postings)
balanced_after id row m t u f le (inl (e, a)) = (
  row,
  ap (λ z. find_account id z.accounts) e ∙ f,
  a.equal
      ∙ limited_sum-whole id a.upper t (omega (arith, le, a.past_latest))
      ∙ ap (λ z. postings_sum id z.postings) (sym e),
)
balanced_after id row m t u f le (inr x) =
    (_, UpdatesRow-find_self x.update, ap (postings_sum id) (sym (UpdatesRow-rest x.update).1))

module _ (env : Env) (pw : PostingWorker) (id : Uuid) (batch_max : ℕ) (w v : World) where
  -- While no other session writes, `ValidateBalance` leaves a consistent ledger exactly as it is,
  -- whatever it returns and whatever calls fail: it corrects no balance that is right.
  pub validate_balance_settled :
      (r : Result (Unit {0}))
      → IsQuiet env
      → IsConsistent w.db
      → validate_balance env pw id batch_max w ≡ (r, v)
      → v.db ≡ w.db
  unfolding validate_balance
  validate_balance_settled r quiet c h =
      either_way (λ u. u.db ≡ w.db) r v
        (subst (Wp (λ _ u. u.db ≡ w.db) (λ u. u.db ≡ w.db)) h
          (settled_steps env quiet pw.has_metrics id w.db c 7 batch_max w refl))

  -- While no other session writes, `ValidateBalance` of an account that exists either changes no
  -- table, or sets the account's balance to the sum of its postings and the latest posting id to
  -- theirs, and changes nothing else; whatever it returns, and whatever calls fail or lose their
  -- answers.
  pub validate_balance_safe :
      (row : Account) (r : Result (Unit {0}))
      → IsQuiet env
      → find_account id w.db.accounts ≡ some row
      → validate_balance env pw id batch_max w ≡ (r, v)
      → (v.db ≡ w.db) ⊎ Repaired id row w.db v.db
  validate_balance_safe row r quiet f h = forget_agreement id row batch_max w.db r v (
      subst (Wp _ _) h
        (validate_balance-Ends env quiet pw.has_metrics id w.db row f pw batch_max w refl refl))

  -- If `ValidateBalance` returns nil, while no other session writes, for an account whose latest
  -- posting id is no smaller than the ids of its postings, then its balance is the sum of its
  -- postings afterwards, whatever it was before.
  pub validate_balance_ok :
      (row : Account)
      → IsQuiet env
      → find_account id w.db.accounts ≡ some row
      → latest_posting id w.db.postings ≤ row.latest_posting_id
      → validate_balance env pw id batch_max w ≡ (ok tt, v)
      → (row' : Account) × (find_account id v.db.accounts ≡ some row')
        × (row'.balance ≡ postings_sum id v.db.postings)
  unfolding Wp
  validate_balance_ok row quiet f le h = balanced_after id row batch_max w.db v.db f le (
      subst (Wp _ _) h
        (validate_balance-Ends env quiet pw.has_metrics id w.db row f pw batch_max w refl refl))
