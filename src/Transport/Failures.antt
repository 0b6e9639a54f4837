-- ===== src/Transport/Failures.antt =====
-- What a client may conclude from a failed transfer.
use high_load_ledger.Prelude.{◌∙◌, sym, ap, Option, none, some, ◌≡◌, refl}
use high_load_ledger.Entity.{Uuid, TransactionRequest}
use high_load_ledger.Result.{Result, ok, err}
use high_load_ledger.World.{NeverLoses, IsQuiet, Env, World}
use high_load_ledger.Wire.{failed, replied, Reply, Code, Bytes, UuidLib}
use high_load_ledger.Transfer.{transaction, TransferUseCase}
use high_load_ledger.Transport.Handlers.{
  domain_request, with_id, transfer_code, reply_with, TransferRequest, transfer_handler,
}
use high_load_ledger.Transfer.Atomicity.{transaction_error}

not_failed :
    (b : Bytes) (c : Code) (u v : World)
    → ◌≡◌ {A = Reply Bytes × World} (replied b, u) (failed c, v)
    → ⊥
not_failed b c u v e = cc

module _ (env : Env) (lib : UuidLib) (uc : TransferUseCase) (w v : World) (quiet : IsQuiet env)
    (sure : NeverLoses env) where
  reply_failed :
      (req : TransactionRequest) (c : Code) (o : Result Uuid × World)
      → transaction env uc req w ≡ o
      → reply_with lib.bytes transfer_code o ≡ (failed c, v)
      → (v.db ≡ w.db) × (v.published ≡ w.published)
  reply_failed req c (ok id, u) h e = absurd (not_failed _ c u v e)
  reply_failed req c (err x, u) h e =
      let (d, p) = transaction_error env uc req w u x quiet sure h in
      let same = ap (λ o. o.1) e in
      (ap (λ z. z.db) (sym same) ∙ d, ap (λ z. z.published) (sym same) ∙ p)

  -- A Transfer call that fails with any code, while no other session writes and no answer is lost,
  -- has changed no table and published nothing; also when an id of the request is malformed.
  pub transfer_handler_failed :
      (req : TransferRequest) (c : Code)
      → transfer_handler env lib uc req w ≡ (failed c, v)
      → (v.db ≡ w.db) × (v.published ≡ w.published)
  unfolding transfer_handler
  transfer_handler_failed req c h =
      checked (lib.from_bytes req.idempotency_key) _
        (λ ik e.
          checked (lib.from_bytes req.user_from_id) _
            (λ a e.
              checked (lib.from_bytes req.user_to_id) _
                (λ b e. reply_failed (domain_request req ik a b) c _ refl e) e)
            e)
        h
    where
      checked :
          (o : Option Uuid) (k : Uuid → World → Reply Bytes × World)
          → ((id : Uuid) → k id w ≡ (failed c, v) → (v.db ≡ w.db) × (v.published ≡ w.published))
          → with_id o k w ≡ (failed c, v)
          → (v.db ≡ w.db) × (v.published ≡ w.published)
      checked none k f e =
          let same = ap (λ q. q.1) e in
          (ap (λ z. z.db) (sym same), ap (λ z. z.published) (sym same))
      checked (some id) k f e = f id e
