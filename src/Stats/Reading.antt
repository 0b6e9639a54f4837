-- ===== src/Stats/Reading.antt =====
-- What a reader of a transaction gets, from the cache or from the tables.
use high_load_ledger.Prelude.{
  ==_self, Bool-cases, ℕ, true, false, ◌≡◌, refl, ap, sym, subst, ◌∙◌, Option, none, some, [], ◌∷◌,
  ◌==◌, inl, inr, if◌then◌else◌,
}
use high_load_ledger.Entity.{Uuid, uuid_nil, Transaction}
use high_load_ledger.Result.{Result, ok, err}
use high_load_ledger.Redis
use high_load_ledger.Stats.Defs.{get_transaction}
use high_load_ledger.World.{
  fine, pure, currency_key, balance_key, CacheValue, json, tick, Fault, transaction_key, CacheKey,
  Env, World, M,
}
use high_load_ledger.Wire.{UuidLib}
use high_load_ledger.Redis.{
  as_transaction, redis_get, redis_set, set_transaction, answer, alter, cache_set, same_key,
  Entries, cache_get, live,
}
use high_load_ledger.Stats.Defs.{with_key_id, message_of, handle_kafka_message}
use high_load_ledger.Postgres.{get_transaction_by_id}

same_key_self : (k : CacheKey) → same_key k k ≡ true
same_key_self (balance_key a) = ==_self a
same_key_self (currency_key a) = ==_self a
same_key_self (transaction_key a) = ==_self a

pub cache_get-cache_set :
    (k : CacheKey) (v : CacheValue) (c : Entries) → cache_get k (cache_set k v c) ≡ some v
unfolding cache_get cache_set
cache_get-cache_set k v [] = rw (same_key_self k) refl
cache_get-cache_set k v ((j, u) ∷ c) = elim (Bool-cases (same_key k j)) [
  | inl e ↦ rw (e, same_key_self k) refl
  | inr e ↦ rw (e, e) (cache_get-cache_set k v c)
]

stored :
    (f : Entries → Entries) (fault : Fault) (w : World)
    → fault ≡ fine
    → alter fault f w ≡ (ok tt, record w { cache = f w.cache })
stored f fault w e = subst (λ x. alter x f w ≡ (ok tt, record w { cache = f w.cache })) (sym e) refl

answered :
    {A : Type 0} (f : Entries → A) (fault : Fault) (w : World)
    → fault ≡ fine
    → answer fault f w ≡ (ok (f w.cache), w)
answered f fault w e = subst (λ x. answer x f w ≡ (ok (f w.cache), w)) (sym e) refl

module _ (env : Env) (lib : UuidLib) (reliable : (n : ℕ) → env.fault n ≡ fine) where
  abbrev cached : Transaction → World → World
  cached trx w = record (tick env w) {
    cache = cache_set (transaction_key trx.id) (json trx) w.cache;
  }

  projected :
      (trx : Transaction) (w : World)
      → (trx.id == uuid_nil) ≡ false
      → handle_kafka_message env lib (message_of lib trx) w ≡ (ok tt, cached trx w)
  unfolding handle_kafka_message message_of with_key_id set_transaction redis_set tick
  projected trx w present =
      rw (present, present)
        (stored (cache_set (transaction_key trx.id) (json trx)) _ (tick env w) (reliable w.clock))

  abbrev choose : Uuid → Option Transaction → M Transaction
  choose id c = elim c as (λ _. M Transaction) [
    | some tx ↦ pure tx
    | none ↦ get_transaction_by_id env id
  ]

  abbrev decode : Result (Option CacheValue) × World → Result (Option Transaction) × World
  decode o = elim o.0 as (λ _. Result (Option Transaction) × World) [
    | ok found ↦ (as_transaction found, o.1)
    | err x ↦ (err x, o.1)
  ]

  abbrev finish : Uuid → Result (Option Transaction) × World → Result Transaction × World
  finish id o = elim o.0 as (λ _. Result Transaction × World) [
    | ok c ↦ choose id c o.1
    | err x ↦ (err x, o.1)
  ]

  read_live :
      (id : Uuid) (found : Option CacheValue) (v : World)
      → live env v.clock (transaction_key id) v.cache ≡ found
      → get_transaction env id v ≡ finish id (decode (ok found, tick env v))
  unfolding get_transaction Redis.get_transaction redis_get tick
  read_live id found v h =
      ap (λ o. finish id (decode o))
        (answered (live env v.clock (transaction_key id)) _ (tick env v) (reliable v.clock)
          ∙ ap (λ o. (ok o, tick env v)) h)

  -- A reader finds the entry, unless it has expired.
  read_cached :
      (id : Uuid) (trx : Transaction) (v : World)
      → cache_get (transaction_key id) v.cache ≡ some (json trx)
      → get_transaction env id v ≡ (
          if env.expired v.clock (transaction_key id)
          then get_transaction_by_id env id (tick env v)
          else (ok trx, tick env v))
  unfolding live
  read_cached id trx v h = elim (Bool-cases (env.expired v.clock (transaction_key id))) [
    | inl e ↦ rw (read_live id none v (rw e refl), e) refl
    | inr e ↦ rw (read_live id (some (json trx)) v (rw e h), e) refl
  ]

  -- When all calls work, the message that the producer writes for a transaction whose id is not
  -- nil puts it into the cache. From there a reader of the id gets the same transaction back, with
  -- one call, until the entry has expired; then the read goes on to the table.
  pub get_transaction_projected :
      (trx : Transaction) (w : World)
      → (trx.id == uuid_nil) ≡ false
      → let o = handle_kafka_message env lib (message_of lib trx) w in
        (o.0 ≡ ok tt)
        × (get_transaction env trx.id o.1 ≡ (
            if env.expired o.1.clock (transaction_key trx.id)
            then get_transaction_by_id env trx.id (tick env o.1)
            else (ok trx, tick env o.1)))
  get_transaction_projected trx w present =
      let p = projected trx w present in
      (
        ap (λ o. o.0) p,
        subst
            (λ o. get_transaction env trx.id o.1 ≡ (
              if env.expired o.1.clock (transaction_key trx.id)
              then get_transaction_by_id env trx.id (tick env o.1)
              else (ok trx, tick env o.1)))
            (sym p)
            (read_cached trx.id trx (cached trx w)
              (cache_get-cache_set (transaction_key trx.id) (json trx) w.cache)),
      )
