-- ===== src/Postgres/Calls.antt =====
-- What each writing method of the repository does to the state, on every branch.
use high_load_ledger.Prelude.{List, ℕ, zero, false, ◌≡◌, refl, [], ◌∷◌, ◌==◌}
use high_load_ledger.Prelude.Int.{ℤ}
use high_load_ledger.Entity.{
  Uuid, Posting, Transaction, Account, Time, Error, driver, unique_violation,
}
use high_load_ledger.Result.{Result, ok, err}
use high_load_ledger.Store.{Tables}
use high_load_ledger.Store.Statements.{insert_transaction, insert_account, debit, credit}
use high_load_ledger.World.{
  Env, Fault, fine, refused, lost, World, active, ◌>>=◌, guard, now, pgx_tx,
}
use high_load_ledger.World.Frame.{
  Frame-refl, Keeps, tick-Frame, still, Frame, Frame-trans, Wp, Wp-bind, Wp-weaken, guard-Wp,
}
use high_load_ledger.Postgres.Driver.{on_pool, run_alone, in_tx}
use high_load_ledger.Postgres.Queries.{reading, get_currencies}
use high_load_ledger.Postgres.Repository.{
  create_account, create_transaction, create_postings, number_postings, returning_ids,
  debit_balance, credit_balance, no_rows, as_conflict, cast_tx,
}
use high_load_ledger.Postgres.Specs.{in_tx-Wp, Ran}

module _ (env : Env) where
  as_conflict-Wp :
      {A : Type 0} (Q : A → World → Type 0) (E : World → Type 0) (r : Result A) (w : World)
      → Wp Q E (r, w)
      → Wp Q E (as_conflict r, w)
  unfolding as_conflict Wp
  as_conflict-Wp Q E (ok a) w h = h
  as_conflict-Wp Q E (err (driver unique_violation)) w h = h
  as_conflict-Wp Q E (err _) w h = h

  pub create_transaction-Wp :
      (tr : Transaction) (t : Tables) (w : World)
      → w.session ≡ active t
      → Wp
          (λ a v. Ran env (λ u. no_rows (insert_transaction tr u)) t a v × Frame env w v)
          (λ v. Frame env w v)
          (create_transaction env pgx_tx tr w)
  unfolding create_transaction cast_tx
  create_transaction-Wp tr t w e = as_conflict-Wp _ _ _ _ (in_tx-Wp env _ t w e)

  pub create_account-Wp :
      (acc : Account) (t : Tables) (w : World)
      → w.session ≡ active t
      → Wp
          (λ a v. Ran env (λ u. no_rows (insert_account acc u)) t a v × Frame env w v)
          (λ v. Frame env w v)
          (create_account env pgx_tx acc w)
  unfolding create_account cast_tx
  create_account-Wp acc t w e = in_tx-Wp env _ t w e

  -- What is left of a balance update: it changed a row.
  abbrev pub Updated : (Time → Tables → Result (ℕ × Tables)) → Tables → World → World → Type 0
  Updated f t w v =
      (at : Time) × (n : ℕ) × ((n == 0) ≡ false) × Ran env (f at) t n v × Frame env w v

  update-Wp :
      (f : Tables → Result (ℕ × Tables)) (e : Error) (t : Tables) (w : World)
      → w.session ≡ active t
      → Wp
          (λ _ v. (n : ℕ) × ((n == 0) ≡ false) × Ran env f t n v × Frame env w v)
          (λ v. Frame env w v)
          ((in_tx env f >>= λ n. guard (n == 0) e) w)
  update-Wp f e t w h =
      Wp-bind _ _ (in_tx env f) _ w (in_tx-Wp env f t w h)
        (λ n v (ran, fr). guard-Wp _ _ (n == 0) e v (λ z. (n, z, ran, fr)) (λ _. fr))

  now-Frame : (w : World) → Frame env w (now env w).1
  unfolding now
  now-Frame w = record { db = still; published = refl; transfers = refl }

  -- The clock is read before the statement.
  timed-Wp :
      (f : Time → Tables → Result (ℕ × Tables)) (e : Error) (t : Tables) (w : World)
      → w.session ≡ active t
      → Wp
          (λ _ v. Updated f t w v)
          (λ v. Frame env w v)
          ((now env >>= λ at. in_tx env (f at) >>= λ n. guard (n == 0) e) w)
  unfolding now
  timed-Wp f e t w h =
      Wp-weaken _ _ _ (update-Wp (f (env.now w.clock)) e t _ h)
        (λ _ v (n, z, ran, fr). (env.now w.clock, n, z, ran, Frame-trans (now-Frame w) fr))
        (λ v fr. Frame-trans (now-Frame w) fr)

  pub debit_balance-Wp :
      (id : Uuid) (amount : ℤ) (posting_id : ℕ) (t : Tables) (w : World)
      → w.session ≡ active t
      → Wp
          (λ _ v. Updated (debit id amount posting_id) t w v)
          (λ v. Frame env w v)
          (debit_balance env pgx_tx id amount posting_id w)
  unfolding debit_balance cast_tx
  debit_balance-Wp id amount posting_id t w h = timed-Wp _ _ t w h

  pub credit_balance-Wp :
      (id : Uuid) (amount : ℤ) (posting_id : ℕ) (t : Tables) (w : World)
      → w.session ≡ active t
      → Wp
          (λ _ v. Updated (credit id amount posting_id) t w v)
          (λ v. Frame env w v)
          (credit_balance env pgx_tx id amount posting_id w)
  unfolding credit_balance cast_tx
  credit_balance-Wp id amount posting_id t w h = timed-Wp _ _ t w h

  pub create_two_postings-Wp :
      (p q : Posting) (t : Tables) (w : World)
      → w.session ≡ active t
      → let rows = number_postings (env.nextval w.clock) zero (p ∷ q ∷ []) in
        Wp
          (λ ids v. Ran env (returning_ids rows) t ids v × Frame env w v)
          (λ v. Frame env w v)
          (create_postings env pgx_tx (p ∷ q ∷ []) w)
  unfolding create_postings cast_tx
  create_two_postings-Wp p q t w h = in_tx-Wp env _ t w h

  pub create_one_posting-Wp :
      (p : Posting) (t : Tables) (w : World)
      → w.session ≡ active t
      → let rows = number_postings (env.nextval w.clock) zero (p ∷ []) in
        Wp
          (λ ids v. Ran env (returning_ids rows) t ids v × Frame env w v)
          (λ v. Frame env w v)
          (create_postings env pgx_tx (p ∷ []) w)
  unfolding create_postings cast_tx
  create_one_posting-Wp p t w h = in_tx-Wp env _ t w h

  -- A statement on the pool that only reads.
  run_alone-Frame :
      {A : Type 0} (f : Tables → A) (w w' : World) (fault : Fault)
      → Frame env w w'
      → Frame env w (run_alone fault (reading f) w').1
  run_alone-Frame f w w' fine fr = record {
    db = fr.db;
    published = fr.published;
    transfers = fr.transfers;
  }
  run_alone-Frame f w w' (refused e) fr = fr
  run_alone-Frame f w w' (lost e) fr = record {
    db = fr.db;
    published = fr.published;
    transfers = fr.transfers;
  }

  pub reading-Keeps : {A : Type 0} (f : Tables → A) → Keeps env (on_pool env (reading f))
  unfolding on_pool
  reading-Keeps f w = run_alone-Frame f w _ (env.fault w.clock) (tick-Frame env w)

  pub get_currencies-Keeps : (ids : List Uuid) → Keeps env (get_currencies env ids)
  unfolding get_currencies
  get_currencies-Keeps [] w = Frame-refl w
  get_currencies-Keeps (id ∷ ids) w = reading-Keeps _ w
