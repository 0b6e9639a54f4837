-- ===== src/Redis/Specs.antt =====
-- No call of the cache touches the database, the queue or the counters.
use high_load_ledger.Prelude.{ℕ, Bool-cases, none, ◌≡◌, refl, ◌⊎◌, inl, inr}
use high_load_ledger.Entity.{Uuid, Currency, Transaction}
use high_load_ledger.Result.{ok}
use high_load_ledger.World.{Env, Fault, fine, refused, lost, World, lift, CacheKey, CacheValue}
use high_load_ledger.World.Frame.{Frame, Frame-refl, Keeps, Keeps-bind, tick-Frame}
use high_load_ledger.Redis.Client.{Entries, live, cache_get, answer, alter, redis_get, redis_set}
use high_load_ledger.Redis.Cache.{
  set_account_currency, get_account_currency, set_transaction, get_transaction, as_currency,
  as_transaction,
}

module _ (env : Env) where
  pub live-cases :
      (n : ℕ) (k : CacheKey) (c : Entries)
      → (live env n k c ≡ none) ⊎ (live env n k c ≡ cache_get k c)
  unfolding live
  live-cases n k c = elim (Bool-cases (env.expired n k)) [
    | inl e ↦ inl (rw e refl)
    | inr e ↦ inr (rw e refl)
  ]

  answer-Frame :
      {A : Type 0} (f : Entries → A) (w w' : World) (fault : Fault)
      → Frame env w w'
      → Frame env w (answer fault f w').1
  answer-Frame f w w' fine fr = fr
  answer-Frame f w w' (refused e) fr = fr
  answer-Frame f w w' (lost e) fr = fr

  alter-Frame :
      (f : Entries → Entries) (w w' : World) (fault : Fault)
      → Frame env w w'
      → Frame env w (alter fault f w').1
  alter-Frame f w w' fine fr = record {
    db = fr.db;
    published = fr.published;
    transfers = fr.transfers;
  }
  alter-Frame f w w' (refused e) fr = fr
  alter-Frame f w w' (lost e) fr = record {
    db = fr.db;
    published = fr.published;
    transfers = fr.transfers;
  }

  pub redis_get-Keeps : (k : CacheKey) → Keeps env (redis_get env k)
  unfolding redis_get
  redis_get-Keeps k w = answer-Frame _ w _ (env.fault w.clock) (tick-Frame env w)

  pub redis_set-Keeps : (k : CacheKey) (v : CacheValue) → Keeps env (redis_set env k v)
  unfolding redis_set
  redis_set-Keeps k v w = alter-Frame _ w _ (env.fault w.clock) (tick-Frame env w)

  pub get_account_currency-Keeps : (id : Uuid) → Keeps env (get_account_currency env id)
  unfolding get_account_currency
  get_account_currency-Keeps id =
      Keeps-bind env (redis_get env _) (λ found. lift (ok (as_currency found))) (redis_get-Keeps _)
        (λ found w. Frame-refl w)

  pub set_account_currency-Keeps :
      (id : Uuid) (c : Currency) → Keeps env (set_account_currency env id c)
  unfolding set_account_currency
  set_account_currency-Keeps id c = redis_set-Keeps _ _

  pub set_transaction-Keeps : (tx : Transaction) → Keeps env (set_transaction env tx)
  unfolding set_transaction
  set_transaction-Keeps tx = redis_set-Keeps _ _

  pub get_transaction-Keeps : (id : Uuid) → Keeps env (get_transaction env id)
  unfolding get_transaction
  get_transaction-Keeps id =
      Keeps-bind env (redis_get env _) (λ found. lift (as_transaction found)) (redis_get-Keeps _)
        (λ found w. Frame-refl w)
