-- ===== src/Redis/Client.antt =====
-- redis.Client as far as the cache uses it: GET, SET and DEL on a map from keys to texts.
use high_load_ledger.Prelude.{
  Bool, false, ℕ, Option, none, some, List, [], ◌∷◌, ◌==◌, if◌then◌else◌,
}
use high_load_ledger.Entity.{driver}
use high_load_ledger.Result.{Result, ok, err}
use high_load_ledger.World.{
  Env, Fault, fine, refused, lost, World, M, tick, CacheKey, balance_key, currency_key,
  transaction_key, CacheValue,
}

abbrev pub same_key : CacheKey → CacheKey → Bool
same_key (balance_key a) (balance_key b) = a == b
same_key (currency_key a) (currency_key b) = a == b
same_key (transaction_key a) (transaction_key b) = a == b
same_key _ _ = false

abbrev pub Entries : Type 0
Entries = List (CacheKey × CacheValue)

unfoldable pub cache_get : CacheKey → Entries → Option CacheValue
cache_get k [] = none
cache_get k ((j, v) ∷ c) = if same_key k j then some v else cache_get k c

unfoldable pub cache_set : CacheKey → CacheValue → Entries → Entries
cache_set k v [] = (k, v) ∷ []
cache_set k v ((j, u) ∷ c) = if same_key k j then (k, v) ∷ c else (j, u) ∷ cache_set k v c

unfoldable pub cache_del : CacheKey → Entries → Entries
cache_del k [] = []
cache_del k ((j, u) ∷ c) = if same_key k j then cache_del k c else (j, u) ∷ cache_del k c

abbrev pub answer : {A : Type 0} → Fault → (Entries → A) → World → Result A × World
answer fine f w = (ok (f w.cache), w)
answer (refused e) f w = (err (driver e), w)
answer (lost e) f w = (err (driver e), w)

abbrev pub alter : Fault → (Entries → Entries) → World → Result (Unit {0}) × World
alter fine f w = (ok tt, record w { cache = f w.cache })
alter (refused e) f w = (err (driver e), w)
alter (lost e) f w = (err (driver e), record w { cache = f w.cache })

module _ (env : Env) where
  -- the entry that call n finds under a key
  unfoldable pub live : ℕ → CacheKey → Entries → Option CacheValue
  live n k c = if env.expired n k then none else cache_get k c

  -- `rdb.Get`; none is `redis.Nil`
  unfoldable pub redis_get : CacheKey → M (Option CacheValue)
  unfolding tick cache_get live
  redis_get k w = answer (env.fault w.clock) (live w.clock k) (tick env w)

  -- `rdb.Set`
  unfoldable pub redis_set : CacheKey → CacheValue → M (Unit {0})
  unfolding tick cache_set
  redis_set k v w = alter (env.fault w.clock) (cache_set k v) (tick env w)

  -- `rdb.Del`
  unfoldable pub redis_del : CacheKey → M (Unit {0})
  unfolding tick cache_del
  redis_del k w = alter (env.fault w.clock) (cache_del k) (tick env w)
