-- ===== src/Worker/Steps.antt =====
-- What the reads of the worker return, and what its correction writes.
use high_load_ledger.Prelude.{arith, ltb, if◌then◌else◌, ℕ, ◌≡◌, refl, ◌∙◌, sym, some}
use high_load_ledger.Prelude.Int.{ℤ}
use high_load_ledger.World.{◌>>=◌, lift, pure, Env, World}
use high_load_ledger.Result.{or_error, ok}
use high_load_ledger.Postgres.{
  pool_querier, reading, scan_sum, get_account_balance_snapshot, get_postings_sum, on_pool,
}
use high_load_ledger.Worker.Defs.{context_result, context_err}
use high_load_ledger.Entity.{account_not_found, Account, Uuid}
use high_load_ledger.World.Frame.{
  some_of_or_error, Wp-lift, Wp-pure, Wp-bind, Frame-refl, Wp-step, Frame, Wp,
}
use high_load_ledger.Store.{Tables}
use high_load_ledger.Store.Rows.{postings_sum, postings_sum_to, find_account}
use high_load_ledger.Postgres.Specs.{reading-Wp}

-- `GetPostingsSum`: a limit of 0 leaves nothing out.
abbrev pub limited_sum : Uuid → ℕ → Tables → ℤ
limited_sum id limit t =
    if ltb 0 limit then postings_sum_to id limit t.postings else postings_sum id t.postings

module _ (env : Env) where
  pub scan_sum-eq : (s r : ℤ) → scan_sum s ≡ ok r → r ≡ s
  scan_sum-eq s r h = ground arith

  pub get_postings_sum-Wp :
      (id : Uuid) (limit : ℕ) (w : World)
      → Wp
          (λ s v. (s ≡ limited_sum id limit v.db) × Frame env w v)
          (λ v. Frame env w v)
          (get_postings_sum env pool_querier id limit w)
  unfolding get_postings_sum
  get_postings_sum-Wp id limit w =
      Wp-step _ (on_pool env (reading (limited_sum id limit))) (λ s. lift (scan_sum s))
        (Frame-refl w) (reading-Wp env (limited_sum id limit) w)
        λ s v (e, fr). Wp-lift _ _ (scan_sum s) v (λ r h. (scan_sum-eq s r h ∙ e, fr)) fr

  pub snapshot-Wp :
      (id : Uuid) (w : World)
      → Wp
          (λ s v.
            ((row : Account) × (find_account id v.db.accounts ≡ some row)
              × (s ≡ (row.balance, row.latest_posting_id)))
            × Frame env w v)
          (λ v. Frame env w v)
          (get_account_balance_snapshot env pool_querier id w)
  unfolding get_account_balance_snapshot
  snapshot-Wp id w =
      let k = λ (row : Account). pure (row.balance, row.latest_posting_id) in
      Wp-step _ (on_pool env (reading (λ t. find_account id t.accounts)))
        (λ found. lift (or_error found account_not_found) >>= k) (Frame-refl w)
        (reading-Wp env (λ t. find_account id t.accounts) w)
        λ found v (e, fr).
          Wp-bind _ _ (lift (or_error found account_not_found)) k v
            (Wp-lift (λ row u. (find_account id u.db.accounts ≡ some row) × Frame env w u) _
              (or_error found account_not_found) v
              (λ row h. (sym e ∙ some_of_or_error found account_not_found row h, fr)) fr)
            λ row u (f, g). Wp-pure _ _ _ u ((row, f, refl), g)

  pub context_err-Wp :
      (w : World) → Wp (λ _ v. Frame env w v) (λ v. Frame env w v) (context_err env w)
  unfolding context_err
  context_err-Wp w =
      Wp-lift _ _ (context_result (env.context_error w.clock)) w (λ _ _. Frame-refl w)
        (Frame-refl w)
