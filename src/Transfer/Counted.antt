-- ===== src/Transfer/Counted.antt =====
-- How a call of `Transaction` Ends, with its counter.
use high_load_ledger.Prelude.{
  suc, ◌+◌, Bool, true, false, ◌≡◌, refl, ap, subst, ◌∙◌, sym, ◌∷◌, List, if◌then◌else◌, ◌⊎◌, inl,
  inr,
}
use high_load_ledger.Entity.{Uuid, Time, TransactionRequest}
use high_load_ledger.Result.{Result, ok, err}
use high_load_ledger.World.{success, TransferStatus, Env, World}
use high_load_ledger.World.Frame.{Evolves, Wp}
use high_load_ledger.Transfer.Defs.{
  TransferUseCase, new_transaction, transaction, record_transfer, transfer_status,
}
use high_load_ledger.Transfer.Outcome.{transfer-Wp, LostCommit, Fails, Committed, Succeeds}

-- The counter after a call: one more entry, if there are metrics.
abbrev pub counted : TransferUseCase → TransferStatus → World → List TransferStatus
counted uc s w = if uc.has_metrics then s ∷ w.transfers else w.transfers

-- How a call of `Transaction` in the state `w` Ends.
abbrev pub Outcome :
    Env → TransferUseCase → TransactionRequest → World → Result Uuid × World → Type 0
Outcome env uc req w (ok id, v) =
    (at : Time) × Committed env req id at w.db v.db
    × (v.published
        ≡ (if uc.has_publisher then new_transaction req id at ∷ w.published else w.published))
    × (v.transfers ≡ counted uc success w)
Outcome env uc req w (err e, v) =
    (Evolves env w.db v.db ⊎ ((l : LostCommit env req w.db v.db) × (v.clock ≡ 1 + suc l.call)))
    × (v.published ≡ w.published)
    × (v.transfers ≡ counted uc (transfer_status {A = Uuid} (err e)) w)

module _ (env : Env) (uc : TransferUseCase) (req : TransactionRequest) where
  record_transfer_fields :
      (b : Bool) (s : TransferStatus) (w : World)
      → ((record_transfer b s w).db ≡ w.db)
        × ((record_transfer b s w).published ≡ w.published)
        × ((record_transfer b s w).transfers ≡ (if b then s ∷ w.transfers else w.transfers))
        × ((record_transfer b s w).clock ≡ w.clock)
  unfolding record_transfer
  record_transfer_fields true s w = (refl, refl, refl, refl)
  record_transfer_fields false s w = (refl, refl, refl, refl)

  abbrev counting : Result Uuid × World → Result Uuid × World
  counting (r, v) = (r, record_transfer uc.has_metrics (transfer_status r) v)

  counting-Outcome :
      (w : World) (o : Result Uuid × World)
      → Wp (λ id v. Succeeds env uc req w id v) (λ v. Fails 1 env req w v) o
      → Outcome env uc req w (counting o)
  unfolding Wp transfer_status
  counting-Outcome w (ok id, v) (at, c, p, s) =
      let (d, q, m, same_clock) = record_transfer_fields uc.has_metrics success v in
      (
        at,
        subst (Committed env req id at w.db) (sym d) c,
        q ∙ p,
        m ∙ ap (λ l. if uc.has_metrics then success ∷ l else l) s,
      )
  counting-Outcome w (err e, v) (inl g) =
      let st = transfer_status {A = Uuid} (err e) in
      let (d, q, m, same_clock) = record_transfer_fields uc.has_metrics st v in
      (
        inl (subst (Evolves env w.db) (sym d) g.db),
        q ∙ g.published,
        m ∙ ap (λ l. if uc.has_metrics then st ∷ l else l) g.transfers,
      )
  counting-Outcome w (err e, v) (inr (l, last, p, s)) =
      let st = transfer_status {A = Uuid} (err e) in
      let (d, q, m, same_clock) = record_transfer_fields uc.has_metrics st v in
      (
        inr (
          record {
            call = l.call;
            error = l.error;
            fault = l.fault;
            id = l.id;
            at = l.at;
            committed = subst (Committed env req l.id l.at w.db) (sym d) l.committed;
          },
          same_clock ∙ last,
        ),
        q ∙ p,
        m ∙ ap (λ l. if uc.has_metrics then st ∷ l else l) s,
      )

  pub transaction-Outcome : (w : World) → Outcome env uc req w (transaction env uc req w)
  unfolding transaction
  transaction-Outcome w = counting-Outcome w _ (transfer-Wp env uc req w)
