-- ===== src/Transfer/Outcome.antt =====
-- What `TransferUseCase.Transaction` leaves behind, on every branch: all rows of the transfer in one
-- commit, or none of them.
use high_load_ledger.Prelude.{
  arith, suc, ◌+◌, ℕ, Bool, true, false, ◌≡◌, refl, ap, subst, ◌∙◌, sym, ◌∷◌, if◌then◌else◌, ◌⊎◌,
  inl, inr,
}
use high_load_ledger.Entity.{DriverError, Uuid, Time, Transaction, TransactionRequest}
use high_load_ledger.Result.{Result, ok, err}
use high_load_ledger.Store.{Tables}
use high_load_ledger.World.{
  closed, aborted, active, tick, Session, lost, lift, Env, World, ◌>>=◌, ◌>>◌, new_v7, now,
  CustomTx, pgx_tx,
}
use high_load_ledger.World.Frame.{
  Keeps-Wp, lifted-Wp, Wp-pure, now-Wp, new_v7-Wp, Evolves, Evolves-trans, Frame, Frame-trans, Wp,
  Wp-bind, Wp-weaken,
}
use high_load_ledger.Transfer.Validation.{validate_transfer_currencies-Keeps}
use high_load_ledger.Postgres.{
  abandon, cast_tx, rollback, or_rollback, commit_tx, begin_tx, rollback_tx,
}
use high_load_ledger.Postgres.Specs.{CommitsLost, commit_tx-Wp, begin_tx-Wp, rollback_tx-Frame}
use high_load_ledger.Transfer.Defs.{
  finish_transfer, TransferUseCase, new_transaction, write_transfer, transfer_in_tx, transfer,
  publish, validate_request, validate_transfer_currencies,
}
use high_load_ledger.Transfer.Run.{Wrote, write_transfer-Wp}

-- The tables `u` hold, by one commit, all rows of the transfer `id` that began on `t`.
pub record Committed (env : Env) (req : TransactionRequest) (id : Uuid) (at : Time) (t u : Tables)
    : Type 0 where
  pub valid : validate_request req ≡ ok tt
  pub written : Tables
  pub wrote : Wrote env req (new_transaction req id at) t written
  pub kept : Evolves env written u

-- The commit took place, but its answer was lost: one call had the fault `lost`.
pub record LostCommit (env : Env) (req : TransactionRequest) (t u : Tables) : Type 0 where
  pub call : ℕ
  pub error : DriverError
  pub fault : env.fault call ≡ lost error
  pub id : Uuid
  pub at : Time
  pub committed : Committed env req id at t u

-- The lost call is followed by `later` others.
abbrev pub Fails : ℕ → Env → TransactionRequest → World → World → Type 0
Fails later env req w v =
    Frame env w v
    ⊎ ((l : LostCommit env req w.db v.db) × (v.clock ≡ later + suc l.call)
        × (v.published ≡ w.published)
        × (v.transfers ≡ w.transfers))

abbrev pub Succeeds : Env → TransferUseCase → TransactionRequest → World → Uuid → World → Type 0
Succeeds env uc req w id v =
    (at : Time) × Committed env req id at w.db v.db
    × (v.published
        ≡ (if uc.has_publisher then new_transaction req id at ∷ w.published else w.published))
    × (v.transfers ≡ w.transfers)

module _ (env : Env) (uc : TransferUseCase) (req : TransactionRequest) where
  -- Facts about a step carry over to the block that it Ends.
  Committed-from :
      (id : Uuid) (at : Time) (s t u : Tables)
      → Evolves env s t
      → Committed env req id at t u
      → Committed env req id at s u
  Committed-from id at s t u e c = record {
    valid = c.valid;
    written = c.written;
    wrote = record {
      before = c.wrote.before;
      seen = Evolves-trans e c.wrote.seen;
      headed = c.wrote.headed;
      inserted = c.wrote.inserted;
      between = c.wrote.between;
      seen_between = c.wrote.seen_between;
      call = c.wrote.call;
      posted = c.wrote.posted;
      journal = c.wrote.journal;
      ids = c.wrote.ids;
      returned = c.wrote.returned;
      halfway = c.wrote.halfway;
      first = c.wrote.first;
      second = c.wrote.second;
    };
    kept = c.kept;
  }

  Succeeds-from :
      (w w' v : World) (id : Uuid)
      → Frame env w w'
      → Succeeds env uc req w' id v
      → Succeeds env uc req w id v
  Succeeds-from w w' v id fr (at, c, p, s) = (
    at,
    Committed-from id at _ _ _ fr.db c,
    p ∙ ap (λ l. if uc.has_publisher then new_transaction req id at ∷ l else l) fr.published,
    s ∙ fr.transfers,
  )

  Fails-from :
      (later : ℕ) (w w' v : World)
      → Frame env w w'
      → Fails later env req w' v
      → Fails later env req w v
  Fails-from later w w' v fr (inl g) = inl (Frame-trans fr g)
  Fails-from later w w' v fr (inr (l, last, p, s)) = inr (
    record {
      call = l.call;
      error = l.error;
      fault = l.fault;
      id = l.id;
      at = l.at;
      committed = Committed-from l.id l.at _ _ _ fr.db l.committed;
    },
    last,
    p ∙ fr.published,
    s ∙ fr.transfers,
  )

  publish_published :
      (b : Bool) (trx : Transaction) (w : World)
      → ((publish b trx w).published ≡ (if b then trx ∷ w.published else w.published))
        × ((publish b trx w).db ≡ w.db)
        × ((publish b trx w).transfers ≡ w.transfers)
  unfolding publish
  publish_published true trx w = (refl, refl, refl)
  publish_published false trx w = (refl, refl, refl)

  lost_or_Frame :
      (w w3 v : World) (id : Uuid) (at : Time) (t' : Tables)
      → validate_request req ≡ ok tt
      → Wrote env req (new_transaction req id at) w.db t'
      → Frame env w w3
      → CommitsLost env (env.fault w3.clock) t' w3 v ⊎ Frame env w3 v
      → Fails 0 env req w v
  lost_or_Frame w w3 v id at t' valid wrote fr (inl (x, e, next, (kept, p, s))) = inr (
    record {
      call = w3.clock;
      error = x;
      fault = e;
      id = id;
      at = at;
      committed = record { valid = valid; written = t'; wrote = wrote; kept = kept };
    },
    next ∙ omega arith,
    p ∙ fr.published,
    s ∙ fr.transfers,
  )
  lost_or_Frame w w3 v id at t' valid wrote fr (inr g) = inl (Frame-trans fr g)

  -- From the moment the transaction's id and time are known.
  written-Wp :
      (w : World) (id : Uuid) (at : Time) (w2 : World)
      → validate_request req ≡ ok tt
      → w2.session ≡ active w.db
      → Frame env w w2
      → let trx = new_transaction req id at in
        Wp
          (λ id' v. Succeeds env uc req w id' v)
          (λ v. Fails 0 env req w v)
          ((write_transfer env pgx_tx req trx >> finish_transfer env uc pgx_tx trx) w2)
  unfolding finish_transfer
  written-Wp w id at w2 valid h f =
      let trx = new_transaction req id at in
      Wp-bind _ _ (write_transfer env pgx_tx req trx) (λ _. finish_transfer env uc pgx_tx trx) w2
        (Wp-weaken _ _ _ (write_transfer-Wp env req trx w.db w2 h) (λ _ _ p. p)
          (λ _ g. inl (Frame-trans f g)))
        λ _ w3 (t', wrote, s3, f3).
          Wp-bind _ _ (commit_tx env pgx_tx) (λ _ v. (ok trx.id, publish uc.has_publisher trx v)) w3
            (Wp-weaken _ _ _ (commit_tx-Wp env t' w3 s3) (λ _ _ p. p)
              (λ v r. lost_or_Frame w w3 v id at t' valid wrote (Frame-trans f f3) r))
            λ _ w4 (kept, p4, m4).
              let fr = Frame-trans f f3 in
              let (pub_eq, db_eq, m_eq) = publish_published uc.has_publisher trx w4 in
              Wp-pure _ _ _ _ (
                at,
                record {
                  valid = valid;
                  written = t';
                  wrote = wrote;
                  kept = subst (Evolves env t') (sym db_eq) kept;
                },
                pub_eq ∙ ap (λ l. if uc.has_publisher then trx ∷ l else l) (p4 ∙ fr.published),
                m_eq ∙ m4 ∙ fr.transfers,
              )

  in_tx-Wp :
      (w : World)
      → validate_request req ≡ ok tt
      → w.session ≡ active w.db
      → Wp
          (λ id v. Succeeds env uc req w id v)
          (λ v. Fails 0 env req w v)
          (transfer_in_tx env uc req pgx_tx w)
  unfolding transfer_in_tx
  in_tx-Wp w valid h =
      Wp-bind _ _ (new_v7 env) _ w (Wp-weaken _ _ _ (new_v7-Wp env w) (λ _ _ p. p) (λ _. inl))
        λ id w1 (s1, f1).
          Wp-bind _ _ (now env) _ w1
            (Wp-weaken _ _ _ (now-Wp env w1) (λ _ _ p. p) (λ _ g. inl (Frame-trans f1 g)))
            λ at w2 (s2, f2). written-Wp w id at w2 valid (s2 ∙ s1 ∙ h) (Frame-trans f1 f2)

  abandon-clock : (s : Session) (w : World) → (abandon s w).1.clock ≡ w.clock
  abandon-clock closed w = refl
  abandon-clock aborted w = refl
  abandon-clock (active t) w = refl

  rollback_tx-clock : (w : World) → (rollback_tx env pgx_tx w).1.clock ≡ suc w.clock
  unfolding rollback_tx rollback cast_tx tick
  rollback_tx-clock w = abandon-clock _ _

  -- The deferred rollback adds nothing to what an error leaves.
  settled-Wp :
      (w : World) (o : Result Uuid × World)
      → Wp (λ id u. Succeeds env uc req w id u) (λ u. Fails 0 env req w u) o
      → Wp
          (λ id u. Succeeds env uc req w id u)
          (λ u. Fails 1 env req w u)
          (elim o.0 as (λ _. Result Uuid × World) [
            | ok a ↦ (ok a, o.1)
            | err e ↦ (err e, (rollback_tx env pgx_tx o.1).1)
          ])
  unfolding Wp
  settled-Wp w (ok a, u) h = h
  settled-Wp w (err e, u) (inl g) = inl (Frame-trans g (rollback_tx-Frame env u))
  settled-Wp w (err e, u) (inr (l, last, p, s)) =
      let g = rollback_tx-Frame env u in
      let c = l.committed in
      inr (
        record {
          call = l.call;
          error = l.error;
          fault = l.fault;
          id = l.id;
          at = l.at;
          committed = record {
            valid = c.valid;
            written = c.written;
            wrote = c.wrote;
            kept = Evolves-trans c.kept g.db;
          };
        },
        rollback_tx-clock u ∙ omega (arith, last),
        g.published ∙ p,
        g.transfers ∙ s,
      )

  or_rollback-Wp :
      (tx : CustomTx) (w : World)
      → tx ≡ pgx_tx
      → validate_request req ≡ ok tt
      → w.session ≡ active w.db
      → Wp
          (λ id v. Succeeds env uc req w id v)
          (λ v. Fails 1 env req w v)
          (or_rollback env tx (transfer_in_tx env uc req tx) w)
  unfolding or_rollback
  or_rollback-Wp tx w e valid h = rw e (settled-Wp w _ (in_tx-Wp w valid h))

  pub transfer-Wp :
      (w : World)
      → Wp (λ id v. Succeeds env uc req w id v) (λ v. Fails 1 env req w v) (transfer env uc req w)
  unfolding transfer
  transfer-Wp w =
      let k2 = λ (tx : CustomTx). or_rollback env tx (transfer_in_tx env uc req tx) in
      let k1 = λ (_ : Unit {0}). begin_tx env >>= k2 in
      let check =
        validate_transfer_currencies env req.from_account_id req.to_account_id req.currency in
      Wp-bind _ _ (lift (validate_request req)) (λ _. check >>= k1) w
        (Wp-weaken _ _ _ (lifted-Wp env (validate_request req) w) (λ _ _ p. p) (λ _. inl))
        λ _ w1 (valid, f1).
          Wp-bind _ _ check k1 w1
            (Wp-weaken _ _ _ (Keeps-Wp env check w1 (validate_transfer_currencies-Keeps env _ _ _))
              (λ _ _ g. g) (λ _ g. inl (Frame-trans f1 g)))
            λ _ w2 f2.
              Wp-bind _ _ (begin_tx env) k2 w2
                (Wp-weaken _ _ _ (begin_tx-Wp env w2) (λ _ _ g. g)
                  (λ _ g. inl (Frame-trans f1 (Frame-trans f2 g))))
                λ tx w3 (e, h, f3).
                  let fr = Frame-trans f1 (Frame-trans f2 f3) in
                  Wp-weaken _ _ _ (or_rollback-Wp tx w3 e valid h)
                    (λ id v. Succeeds-from w w3 v id fr) (λ v. Fails-from 1 w w3 v fr)
