-- ===== src/Redis/Sure.antt =====
-- The calls of the cache while nothing fails.
use high_load_ledger.Prelude.{ap, ◌≡◌, refl, none, Option, ◌⊎◌, inl, inr}
use high_load_ledger.Entity.{Uuid, Currency, currency_unspecified}
use high_load_ledger.Result.{err, Result, ok}
use high_load_ledger.World.{Env, World, CacheKey, CacheValue, currency_key, ignore, lift}
use high_load_ledger.World.Frame.{Wp}
use high_load_ledger.World.Sure.{IsReliable, Sure, Sure-bind}
use high_load_ledger.Redis.Client.{redis_get, redis_set, cache_get}
use high_load_ledger.Redis.Specs.{live-cases}
use high_load_ledger.Redis.Cache.{get_account_currency, set_account_currency, as_currency}

-- What the cache has on an account's currency.
abbrev pub cached_currency : Uuid → World → Currency
cached_currency id w = as_currency (cache_get (currency_key id) w.cache)

-- A read finds the entry, or nothing since it has expired.
abbrev pub IsRead : Uuid → World → Currency → Type 0
IsRead id w c = (c ≡ currency_unspecified) ⊎ (c ≡ cached_currency id w)

module _ {env : Env} (reliable : IsReliable env) where
  redis_get-Sure :
      (k : CacheKey) (w : World)
      → Sure
          (λ o v. ((o ≡ none) ⊎ (o ≡ cache_get k w.cache)) × (v.db ≡ w.db) × (v.cache ≡ w.cache))
          (redis_get env k w)
  unfolding Wp redis_get
  redis_get-Sure k w =
      rw (reliable.works w.clock, reliable.quiet.alone w.clock w.db, redis_get)
        (live-cases env w.clock k w.cache, refl, refl)

  redis_set-Sure :
      (k : CacheKey) (x : CacheValue) (w : World) → Sure (λ _ v. v.db ≡ w.db) (redis_set env k x w)
  unfolding Wp redis_set
  redis_set-Sure k x w =
      rw (reliable.works w.clock, reliable.quiet.alone w.clock w.db, redis_set) refl

  pub get_account_currency-Sure :
      (id : Uuid) (w : World)
      → Sure
          (λ c v. IsRead id w c × (v.db ≡ w.db) × (v.cache ≡ w.cache))
          (get_account_currency env id w)
  unfolding Wp get_account_currency
  get_account_currency-Sure id w =
      Sure-bind _ (redis_get env (currency_key id)) (λ found. lift (ok (as_currency found))) w
        (redis_get-Sure (currency_key id) w) λ found v (e, d, c). (as_read found e, d, c)
    where
      as_read :
          (found : Option CacheValue)
          → (found ≡ none) ⊎ (found ≡ cache_get (currency_key id) w.cache)
          → IsRead id w (as_currency found)
      as_read found (inl e) = inl (ap as_currency e)
      as_read found (inr e) = inr (ap as_currency e)

  pub set_account_currency-Sure :
      (id : Uuid) (c : Currency) (w : World)
      → Sure (λ _ v. v.db ≡ w.db) (ignore (set_account_currency env id c) w)
  unfolding Wp set_account_currency
  set_account_currency-Sure id c w = ignored _ (redis_set-Sure _ _ w)
    where
      ignored : (o : Result (Unit {0}) × World) → Sure (λ _ v. v.db ≡ w.db) o → o.1.db ≡ w.db
      ignored (ok b, v) h = h
      ignored (err x, v) h = absurd h
