-- ===== src/Postgres/Specs.antt =====
-- What each call of the repository does to the state, on every branch.
use high_load_ledger.Prelude.{suc, List, arith, ℕ, ◌≡◌, refl, sym, ap, subst, ◌⊎◌, inl, inr}
use high_load_ledger.Entity.{DriverError, Uuid, Posting}
use high_load_ledger.Result.{Result, ok, err}
use high_load_ledger.Store.{Tables}
use high_load_ledger.Store.Statements.{insert_postings}
use high_load_ledger.World.{
  Env, Fault, fine, refused, lost, World, Session, closed, aborted, active, tick, pgx_tx, see,
}
use high_load_ledger.World.Frame.{tick-Frame, Evolves, still, more, Frame, Wp}
use high_load_ledger.Postgres.Driver.{
  run_alone, on_pool, settle, run_in, start, finish, abandon, in_tx, begin, commit, rollback,
}
use high_load_ledger.Postgres.Repository.{
  posting_ids, returning_ids, no_rows, begin_tx, commit_tx, rollback_tx, cast_tx,
}
use high_load_ledger.Postgres.Queries.{reading}

-- After a statement `f` in a transaction that saw the tables `t`: what it changed them to.
pub record Ran (env : Env) {A : Type 0} (f : Tables → Result (A × Tables)) (t : Tables) (a : A)
    (w' : World) : Type 0 where
  pub before : Tables
  pub after : Tables
  pub seen : Evolves env t before
  pub result : f before ≡ ok (a, after)
  pub session : w'.session ≡ active after

pub no_rows-eq-ok :
    (r : Result Tables) (a : Unit {0}) (t : Tables) → no_rows r ≡ ok (a, t) → r ≡ ok t
no_rows-eq-ok (ok u) a t h = ground arith
no_rows-eq-ok (err e) a t h = cc

pub returning_ids-eq-ok :
    (rows : List Posting) (ids : List (Uuid × ℕ)) (t u : Tables)
    → returning_ids rows t ≡ ok (ids, u)
    → (insert_postings rows t ≡ ok u) × (ids ≡ posting_ids rows)
returning_ids-eq-ok rows ids t u h = ground arith

module _ (env : Env) where
  settle-Wp :
      {A : Type 0} (f : Tables → Result (A × Tables)) (t u : Tables) (w w' : World)
      (r : Result (A × Tables))
      → f u ≡ r
      → Evolves env t u
      → Frame env w w'
      → Wp (λ a v. Ran env f t a v × Frame env w v) (λ v. Frame env w v) (settle r w')
  unfolding Wp
  settle-Wp f t u w w' (ok (a, u')) e s fr = (
    record { before = u; after = u'; seen = s; result = e; session = refl },
    record { db = fr.db; published = fr.published; transfers = fr.transfers },
  )
  settle-Wp f t u w w' (err x) e s fr = record {
    db = fr.db;
    published = fr.published;
    transfers = fr.transfers;
  }

  run_in-Wp :
      {A : Type 0} (f : Tables → Result (A × Tables)) (t u : Tables) (w w' : World) (fault : Fault)
      → Evolves env t u
      → Frame env w w'
      → Wp
          (λ a v. Ran env f t a v × Frame env w v)
          (λ v. Frame env w v)
          (run_in (active u) fault f w')
  unfolding Wp
  run_in-Wp f t u w w' fine s fr = settle-Wp f t u w w' (f u) refl s fr
  run_in-Wp f t u w w' (refused e) s fr = record {
    db = fr.db;
    published = fr.published;
    transfers = fr.transfers;
  }
  run_in-Wp f t u w w' (lost e) s fr = record {
    db = fr.db;
    published = fr.published;
    transfers = fr.transfers;
  }

  pub in_tx-Wp :
      {A : Type 0} (f : Tables → Result (A × Tables)) (t : Tables) (w : World)
      → w.session ≡ active t
      → Wp (λ a v. Ran env f t a v × Frame env w v) (λ v. Frame env w v) (in_tx env f w)
  unfolding in_tx
  in_tx-Wp f t w e =
      subst
        (λ s.
          Wp (λ a v. Ran env f t a v × Frame env w v) (λ v. Frame env w v)
            (run_in s (env.fault w.clock) f (tick env w)))
        (ap (see (env.others w.clock)) (sym e))
        (run_in-Wp f t _ w _ (env.fault w.clock) (more w.clock still) (tick-Frame env w))

  -- `pool.Begin`: the transaction begins on the committed tables.
  start-Wp :
      (w w' : World) (fault : Fault)
      → Frame env w w'
      → Wp
          (λ tx v. (tx ≡ pgx_tx) × (v.session ≡ active v.db) × Frame env w v)
          (λ v. Frame env w v)
          (start fault w')
  unfolding Wp
  start-Wp w w' fine fr =
      (refl, refl, record { db = fr.db; published = fr.published; transfers = fr.transfers })
  start-Wp w w' (refused e) fr = fr
  start-Wp w w' (lost e) fr = fr

  pub begin_tx-Wp :
      (w : World)
      → Wp
          (λ tx v. (tx ≡ pgx_tx) × (v.session ≡ active v.db) × Frame env w v)
          (λ v. Frame env w v)
          (begin_tx env w)
  unfolding begin_tx begin
  begin_tx-Wp w = start-Wp w _ (env.fault w.clock) (tick-Frame env w)

  -- Committed: the tables of the session, as they then stood, are the database.
  abbrev pub Commits : Tables → World → World → Type 0
  Commits t w v = Evolves env t v.db × (v.published ≡ w.published) × (v.transfers ≡ w.transfers)

  -- The commit took place and its answer was lost.
  abbrev pub CommitsLost : Fault → Tables → World → World → Type 0
  CommitsLost fault t w v =
      (x : DriverError) × (fault ≡ lost x) × (v.clock ≡ suc w.clock) × Commits t w v

  finish-Wp :
      (t u : Tables) (w w' : World) (fault : Fault)
      → Evolves env t u
      → w'.clock ≡ suc w.clock
      → Frame env w w'
      → Wp
          (λ _ v. Commits t w v)
          (λ v. CommitsLost fault t w v ⊎ Frame env w v)
          (finish (active u) fault w')
  unfolding Wp
  finish-Wp t u w w' fine s next fr = (s, fr.published, fr.transfers)
  finish-Wp t u w w' (refused e) s next fr =
      inr (record { db = fr.db; published = fr.published; transfers = fr.transfers })
  finish-Wp t u w w' (lost e) s next fr = inl (e, refl, next, (s, fr.published, fr.transfers))

  pub commit_tx-Wp :
      (t : Tables) (w : World)
      → w.session ≡ active t
      → Wp
          (λ _ v. Commits t w v)
          (λ v. CommitsLost (env.fault w.clock) t w v ⊎ Frame env w v)
          (commit_tx env pgx_tx w)
  unfolding commit_tx commit cast_tx tick
  commit_tx-Wp t w e =
      subst
        (λ s.
          Wp (λ _ v. Commits t w v) (λ v. CommitsLost (env.fault w.clock) t w v ⊎ Frame env w v)
            (finish s (env.fault w.clock) (tick env w)))
        (ap (see (env.others w.clock)) (sym e))
        (finish-Wp t _ w _ (env.fault w.clock) (more w.clock still) refl (tick-Frame env w))

  abandon-Frame : (s : Session) (w w' : World) → Frame env w w' → Frame env w (abandon s w').1
  abandon-Frame closed w w' fr = fr
  abandon-Frame aborted w w' fr = record {
    db = fr.db;
    published = fr.published;
    transfers = fr.transfers;
  }
  abandon-Frame (active t) w w' fr = record {
    db = fr.db;
    published = fr.published;
    transfers = fr.transfers;
  }

  pub rollback_tx-Frame : (w : World) → Frame env w (rollback_tx env pgx_tx w).1
  unfolding rollback_tx rollback cast_tx
  rollback_tx-Frame w = abandon-Frame _ w _ (tick-Frame env w)

  -- A read by itself returns what the committed tables hold.
  run_alone-Wp :
      {A : Type 0} (f : Tables → A) (w w' : World) (fault : Fault)
      → Frame env w w'
      → Wp
          (λ a v. (a ≡ f v.db) × Frame env w v)
          (λ v. Frame env w v)
          (run_alone fault (reading f) w')
  unfolding Wp
  run_alone-Wp f w w' fine fr =
      (refl, record { db = fr.db; published = fr.published; transfers = fr.transfers })
  run_alone-Wp f w w' (refused e) fr = fr
  run_alone-Wp f w w' (lost e) fr = record {
    db = fr.db;
    published = fr.published;
    transfers = fr.transfers;
  }

  pub reading-Wp :
      {A : Type 0} (f : Tables → A) (w : World)
      → Wp (λ a v. (a ≡ f v.db) × Frame env w v) (λ v. Frame env w v) (on_pool env (reading f) w)
  unfolding on_pool
  reading-Wp f w = run_alone-Wp f w _ (env.fault w.clock) (tick-Frame env w)
