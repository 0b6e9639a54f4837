-- ===== src/Postgres/Sure.antt =====
-- The calls of the repository while nothing fails: what they return and what they leave.
use high_load_ledger.Prelude.{arith, [], ◌∷◌, ℕ, ◌≡◌, refl, ◌∙◌, List, ◌==◌}
use high_load_ledger.Entity.{Error, Time, Transaction, Posting}
use high_load_ledger.Result.{Result, ok, err}
use high_load_ledger.Store.{Tables}
use high_load_ledger.Store.Statements.{insert_transaction, insert_postings}
use high_load_ledger.World.{Env, World, active, tick, pgx_tx, now, guard, ◌>>=◌, M}
use high_load_ledger.World.Frame.{guard-Wp, Wp}
use high_load_ledger.World.Sure.{IsReliable, Sure, Sure-bind, now-Sure}
use high_load_ledger.Postgres.Driver.{settle, run_in, in_tx, on_pool, begin, commit}
use high_load_ledger.Postgres.Queries.{reading}
use high_load_ledger.Postgres.Repository.{
  begin_tx, commit_tx, create_transaction, create_postings, cast_tx, no_rows, as_conflict,
  returning_ids, number_postings, posting_ids,
}

returning_ids_ok :
    (rows : List Posting) (t u : Tables)
    → insert_postings rows t ≡ ok u
    → returning_ids rows t ≡ ok (posting_ids rows, u)
returning_ids_ok rows t u e = rw (e, returning_ids) refl

-- One balance update, which finds its row at any time.
abbrev pub Changes : (Time → Tables → Result (ℕ × Tables)) → Tables → Tables → Type 0
Changes f t u = (at : Time) × (f at t ≡ ok (1, u))

abbrev pub Ready : (Time → Tables → Result (ℕ × Tables)) → Tables → Type 0
Ready f t = (at : Time) → (u : Tables) × (f at t ≡ ok (1, u))

module _ {env : Env} (reliable : IsReliable env) where
  -- A statement of the open transaction.
  pub in_tx-Sure :
      {A : Type 0} (f : Tables → Result (A × Tables)) (t u : Tables) (a : A) (w : World)
      → w.session ≡ active t
      → f t ≡ ok (a, u)
      → Sure (λ b v. (b ≡ a) × (v.session ≡ active u)) (in_tx env f w)
  unfolding Wp in_tx tick
  in_tx-Sure f t u a w s e =
      rw (s, reliable.works w.clock, reliable.quiet.alone w.clock t, e, in_tx, run_in, settle)
        (refl, refl)

  pub reading-Sure :
      {A : Type 0} (f : Tables → A) (w : World)
      → Sure (λ b v. (b ≡ f w.db) × (v.db ≡ w.db)) (on_pool env (reading f) w)
  unfolding Wp on_pool tick
  reading-Sure f w =
      rw (reliable.works w.clock, reliable.quiet.alone w.clock w.db, on_pool) (refl, refl)

  pub begin_tx-Sure :
      (w : World) → Sure (λ tx v. (tx ≡ pgx_tx) × (v.session ≡ active w.db)) (begin_tx env w)
  unfolding Wp begin_tx begin tick
  begin_tx-Sure w =
      rw (reliable.works w.clock, reliable.quiet.alone w.clock w.db, begin_tx) (refl, refl)

  pub commit_tx-Sure :
      (t : Tables) (w : World)
      → w.session ≡ active t
      → Sure (λ _ v. v.db ≡ t) (commit_tx env pgx_tx w)
  unfolding Wp commit_tx commit tick cast_tx
  commit_tx-Sure t w s =
      rw (s, reliable.works w.clock, reliable.quiet.alone w.clock t, commit_tx) refl

  pub create_transaction-Sure :
      (tr : Transaction) (t u : Tables) (w : World)
      → w.session ≡ active t
      → insert_transaction tr t ≡ ok u
      → Sure (λ _ v. v.session ≡ active u) (create_transaction env pgx_tx tr w)
  unfolding Wp create_transaction cast_tx as_conflict
  create_transaction-Sure tr t u w s e =
      kept _ (in_tx-Sure (λ x. no_rows (insert_transaction tr x)) t u tt w s (rw e refl))
    where
      kept :
          (o : Result (Unit {0}) × World)
          → Sure (λ b v. (b ≡ tt) × (v.session ≡ active u)) o
          → Sure (λ _ v. v.session ≡ active u) (as_conflict o.0, o.1)
      kept (ok b, v) h = h.1
      kept (err x, v) h = absurd h

  pub create_two_postings-Sure :
      (p q : Posting) (t u : Tables) (w : World)
      → w.session ≡ active t
      → insert_postings (number_postings (env.nextval w.clock) 0 (p ∷ q ∷ [])) t ≡ ok u
      → Sure
          (λ ids v.
            (ids ≡ posting_ids (number_postings (env.nextval w.clock) 0 (p ∷ q ∷ [])))
            × (v.session ≡ active u))
          (create_postings env pgx_tx (p ∷ q ∷ []) w)
  unfolding create_postings cast_tx
  create_two_postings-Sure p q t u w s e =
      let rows = number_postings (env.nextval w.clock) 0 (p ∷ q ∷ []) in
      in_tx-Sure (returning_ids rows) t u (posting_ids rows) w s (returning_ids_ok rows t u e)

  abbrev pub update : (Time → Tables → Result (ℕ × Tables)) → Error → M (Unit {0})
  update f missing = do at ← now env; affected ← in_tx env (f at); guard (affected == 0) missing

  pub update-Sure :
      (f : Time → Tables → Result (ℕ × Tables)) (missing : Error) (t : Tables) (w : World)
      → w.session ≡ active t
      → Ready f t
      → Sure (λ _ v. (u : Tables) × Changes f t u × (v.session ≡ active u)) (update f missing w)
  update-Sure f missing t w s ready =
      let k2 = λ (affected : ℕ). guard (affected == 0) missing in
      let k1 = λ (at : Time). in_tx env (f at) >>= k2 in
      Sure-bind _ (now env) k1 w (now-Sure reliable w) λ at w1 (s1, d1).
        let (u, e) = ready at in
        Sure-bind _ (in_tx env (f at)) k2 w1 (in_tx-Sure (f at) t u 1 w1 (s1 ∙ s) e)
          λ n w2 (one, s2).
            guard-Wp _ _ (n == 0) missing w2 (λ _. (u, (at, e), s2)) (λ z. ground (arith, one, z))
