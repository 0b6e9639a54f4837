-- ===== src/Postgres/Block.antt =====
-- A block of writes between `BeginTx` and `CommitTx`, under the deferred rollback: all or nothing.
use high_load_ledger.Prelude.{ℕ, ◌≡◌, ◌∙◌, ◌⊎◌, inl, inr}
use high_load_ledger.World.{◌>>=◌, ◌>>◌, lost, pgx_tx, active, CustomTx, M, World, Env}
use high_load_ledger.Store.{Tables}
use high_load_ledger.World.Frame.{
  Wp-weaken, Wp-bind, still, Frame-trans, Frame, Evolves-trans, Evolves, Wp,
}
use high_load_ledger.Postgres.{commit_tx, rollback_tx, begin_tx, or_rollback}
use high_load_ledger.Result.{err, ok, Result}
use high_load_ledger.Postgres.Specs.{
  begin_tx-Wp, commit_tx-Wp, rollback_tx-Frame, CommitsLost, Commits,
}
use high_load_ledger.Entity.{DriverError}

-- The tables `u` hold, by one commit, what the block wrote on top of tables that evolved from `t`.
pub record Saved (env : Env) (P : Tables → Tables → Type 0) (t u : Tables) : Type 0 where
  pub before : Tables
  pub seen : Evolves env t before
  pub after : Tables
  pub wrote : P before after
  pub kept : Evolves env after u

pub record IsSaved (env : Env) (P : Tables → Tables → Type 0) (w v : World) : Type 0 where
  pub saved : Saved env P w.db v.db
  pub published : v.published ≡ w.published
  pub transfers : v.transfers ≡ w.transfers

-- The block failed without effect, or its commit was not answered.
abbrev pub Unsaved : (env : Env) → (Tables → Tables → Type 0) → World → World → Type 0
Unsaved env P w v =
    Frame env w v ⊎ ((n : ℕ) × (e : DriverError) × (env.fault n ≡ lost e) × IsSaved env P w v)

-- What the statements of a block do to the session's tables.
abbrev pub Writes : (env : Env) → (Tables → Tables → Type 0) → M (Unit {0}) → Type 0
Writes env P m =
    (t : Tables) (w : World)
    → w.session ≡ active t
    → Wp (λ _ v. (t' : Tables) × P t t' × (v.session ≡ active t') × Frame env w v)
        (λ v. Frame env w v) (m w)

module _ (env : Env) (P : Tables → Tables → Type 0) where
  Saved-after : {s t u : Tables} → Evolves env s t → Saved env P t u → Saved env P s u
  Saved-after e x = record {
    before = x.before;
    seen = Evolves-trans e x.seen;
    after = x.after;
    wrote = x.wrote;
    kept = x.kept;
  }

  Saved-then : {s t u : Tables} → Saved env P s t → Evolves env t u → Saved env P s u
  Saved-then x e = record {
    before = x.before;
    seen = x.seen;
    after = x.after;
    wrote = x.wrote;
    kept = Evolves-trans x.kept e;
  }

  pub IsSaved-after : (w w' v : World) → Frame env w w' → IsSaved env P w' v → IsSaved env P w v
  IsSaved-after w w' v fr x = record {
    saved = Saved-after fr.db x.saved;
    published = x.published ∙ fr.published;
    transfers = x.transfers ∙ fr.transfers;
  }

  pub IsSaved-then : (w w' v : World) → IsSaved env P w w' → Frame env w' v → IsSaved env P w v
  IsSaved-then w w' v x fr = record {
    saved = Saved-then x.saved fr.db;
    published = fr.published ∙ x.published;
    transfers = fr.transfers ∙ x.transfers;
  }

  pub Unsaved-after : (w w' v : World) → Frame env w w' → Unsaved env P w' v → Unsaved env P w v
  Unsaved-after w w' v fr (inl g) = inl (Frame-trans fr g)
  Unsaved-after w w' v fr (inr (n, e, f, s)) = inr (n, e, f, IsSaved-after w w' v fr s)

  Unsaved-then : (w w' v : World) → Unsaved env P w w' → Frame env w' v → Unsaved env P w v
  Unsaved-then w w' v (inl g) fr = inl (Frame-trans g fr)
  Unsaved-then w w' v (inr (n, e, f, s)) fr = inr (n, e, f, IsSaved-then w w' v s fr)

  pub committing :
      (t : Tables) (w w1 v : World)
      → P w.db t
      → Frame env w w1
      → Commits env t w1 v
      → IsSaved env P w v
  committing t w w1 v p fr (kept, q, m) = record {
    saved = record { before = w.db; seen = still; after = t; wrote = p; kept = kept };
    published = q ∙ fr.published;
    transfers = m ∙ fr.transfers;
  }

  pub not_committing :
      (t : Tables) (w w1 v : World)
      → P w.db t
      → Frame env w w1
      → CommitsLost env (env.fault w1.clock) t w1 v ⊎ Frame env w1 v
      → Unsaved env P w v
  not_committing t w w1 v p fr (inl (e, f, _, c)) = inr (w1.clock, e, f, committing t w w1 v p fr c)
  not_committing t w w1 v p fr (inr g) = inl (Frame-trans fr g)

  written-Wp :
      (m : M (Unit {0})) (w : World)
      → Writes env P m
      → w.session ≡ active w.db
      → Wp (λ _ v. IsSaved env P w v) (λ v. Unsaved env P w v) ((m >> commit_tx env pgx_tx) w)
  written-Wp m w h s =
      Wp-bind _ _ m (λ _. commit_tx env pgx_tx) w
        (Wp-weaken _ _ _ (h w.db w s) (λ _ _ p. p) (λ _. inl))
        λ _ w1 (t, p, s1, fr).
          Wp-weaken _ _ _ (commit_tx-Wp env t w1 s1) (λ _ v c. committing t w w1 v p fr c)
            (λ v r. not_committing t w w1 v p fr r)

  settled-Wp :
      (w : World) (o : Result (Unit {0}) × World)
      → Wp (λ _ v. IsSaved env P w v) (λ v. Unsaved env P w v) o
      → Wp
          (λ _ v. IsSaved env P w v)
          (λ v. Unsaved env P w v)
          (elim o.0 as (λ _. Result (Unit {0}) × World) [
            | ok a ↦ (ok a, o.1)
            | err e ↦ (err e, (rollback_tx env pgx_tx o.1).1)
          ])
  unfolding Wp
  settled-Wp w (ok a, u) h = h
  settled-Wp w (err e, u) h = Unsaved-then w u _ h (rollback_tx-Frame env u)

  block-Wp :
      (m : CustomTx → M (Unit {0})) (tx : CustomTx) (w : World)
      → tx ≡ pgx_tx
      → Writes env P (m pgx_tx)
      → w.session ≡ active w.db
      → Wp
          (λ _ v. IsSaved env P w v)
          (λ v. Unsaved env P w v)
          (or_rollback env tx (m tx >> commit_tx env tx) w)
  unfolding or_rollback
  block-Wp m tx w e h s = rw e (settled-Wp w _ (written-Wp (m pgx_tx) w h s))

  pub IsSaved-Wp :
      (m : CustomTx → M (Unit {0})) (w : World)
      → Writes env P (m pgx_tx)
      → Wp
          (λ _ v. IsSaved env P w v)
          (λ v. Unsaved env P w v)
          ((begin_tx env >>= λ tx. or_rollback env tx (m tx >> commit_tx env tx)) w)
  IsSaved-Wp m w h =
      Wp-bind _ _ (begin_tx env) (λ tx. or_rollback env tx (m tx >> commit_tx env tx)) w
        (Wp-weaken _ _ _ (begin_tx-Wp env w) (λ _ _ p. p) (λ _. inl))
        λ tx w1 (e, s, fr).
          Wp-weaken _ _ _ (block-Wp m tx w1 e h s) (λ _ v. IsSaved-after w w1 v fr)
            (λ v. Unsaved-after w w1 v fr)
