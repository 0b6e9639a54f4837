-- ===== src/Transfer/Atomicity.antt =====
-- All or nothing: what the caller of `TransferUseCase.Transaction` may conclude from its result.
use high_load_ledger.Prelude.{
  suc, ◌+◌, true, false, ◌≡◌, refl, subst, ◌∷◌, inl, inr, ◌⊎◌, if◌then◌else◌, arith,
}
use high_load_ledger.Entity.{Uuid, Time, Error, TransactionRequest}
use high_load_ledger.Result.{Result, ok, err}
use high_load_ledger.Store.Rows.{has_key}
use high_load_ledger.World.{Env, IsQuiet, NeverLoses, World}
use high_load_ledger.World.Frame.{Evolves, Evolves-quiet}
use high_load_ledger.Transfer.Defs.{TransferUseCase, new_transaction, transaction}
use high_load_ledger.Transfer.Outcome.{Committed, LostCommit}
use high_load_ledger.Transfer.Counted.{Outcome, transaction-Outcome}
use high_load_ledger.Transfer.Effect.{Transferred, Committed-Transferred}

module _ (env : Env) (uc : TransferUseCase) (req : TransactionRequest) (w v : World) where
  -- A transfer that returns an id, while no other session writes, has moved the amount: the source
  -- had as much and has that much less, the target has that much more, no third account has
  -- changed, the new transaction stands under a key that was free, the two new postings cancel
  -- out, and exactly this transaction is handed to the publisher, if there is one.
  pub transaction_ok :
      (id : Uuid)
      → IsQuiet env
      → transaction env uc req w ≡ (ok id, v)
      → (at : Time) × Transferred req id at w.db v.db
        × (v.published
            ≡ (if uc.has_publisher then new_transaction req id at ∷ w.published else w.published))
  transaction_ok id quiet h =
      let (at, c, p, _) = subst (Outcome env uc req w) h (transaction-Outcome env uc req w) in
      (at, Committed-Transferred quiet req id at w.db v.db c, p)

  unchanged :
      IsQuiet env
      → NeverLoses env
      → Evolves env w.db v.db ⊎ ((l : LostCommit env req w.db v.db) × (v.clock ≡ 1 + suc l.call))
      → v.db ≡ w.db
  unchanged quiet sure (inl e) = Evolves-quiet quiet e
  unchanged quiet sure (inr (l, _)) = absurd (sure.answered l.call l.error l.fault)

  -- A transfer that returns an error, while no other session writes and no answer is lost, has
  -- changed no table and published nothing.
  pub transaction_error :
      (e : Error)
      → IsQuiet env
      → NeverLoses env
      → transaction env uc req w ≡ (err e, v)
      → (v.db ≡ w.db) × (v.published ≡ w.published)
  transaction_error e quiet sure h =
      let (d, p, _) = subst (Outcome env uc req w) h (transaction-Outcome env uc req w) in
      (unchanged quiet sure d, p)

  key_is_new :
      (id : Uuid) (at : Time)
      → IsQuiet env
      → Committed env req id at w.db v.db
      → has_key req.idempotency_key w.db.transactions ≡ false
  key_is_new id at quiet c = (Committed-Transferred quiet req id at w.db v.db c).new_key

  used_key :
      (r : Result Uuid)
      → IsQuiet env
      → has_key req.idempotency_key w.db.transactions ≡ true
      → Outcome env uc req w (r, v)
      → (e : Error) × (r ≡ err e) × (v.db ≡ w.db) × (v.published ≡ w.published)
  used_key (ok id) quiet used (at, c, _, _) = absurd (ground (arith, key_is_new id at quiet c))
  used_key (err e) quiet used (inl d, p, _) = (e, refl, Evolves-quiet quiet d, p)
  used_key (err e) quiet used (inr (l, _), p, _) =
      absurd (ground (arith, key_is_new l.id l.at quiet l.committed))

  -- No second transfer under one idempotency key: if a transaction already has the request's key,
  -- and no other session writes, the call returns an error, changes no table and publishes
  -- nothing, whatever calls fail or lose their answers.
  pub transaction_key_used :
      (r : Result Uuid)
      → IsQuiet env
      → has_key req.idempotency_key w.db.transactions ≡ true
      → transaction env uc req w ≡ (r, v)
      → (e : Error) × (r ≡ err e) × (v.db ≡ w.db) × (v.published ≡ w.published)
  transaction_key_used r quiet used h =
      used_key r quiet used (subst (Outcome env uc req w) h (transaction-Outcome env uc req w))
