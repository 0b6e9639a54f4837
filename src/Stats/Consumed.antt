-- ===== src/Stats/Consumed.antt =====
-- What the consumer has handled is in the cache.
use high_load_ledger.Prelude.{
  ℕ, zero, suc, ◌≡◌, refl, ap, ◌∙◌, Option, none, some, List, [], ◌∷◌, ◌==◌, All,
}
use high_load_ledger.Entity.{
  Error, uuid_nil, Transaction, DriverError, decode_failed, empty_transaction_id,
}
use high_load_ledger.Result.{Result, ok, err, or_error}
use high_load_ledger.World.{
  Env, Fault, fine, refused, lost, World, M, ◌>>=◌, lift, guard, tick, transaction_key, json,
}
use high_load_ledger.World.Frame.{some_of_or_error, Wp, Wp-bind, Wp-weaken, Wp-lift, guard-Wp}
use high_load_ledger.Redis.{cache_get, cache_set, alter, redis_set, set_transaction}
use high_load_ledger.Wire.{UuidLib}
use high_load_ledger.Stats.Defs.{
  delivered, Message, with_key_id, handle_kafka_message, Delivery, fetch_failed, fetched, Handled,
  Consumption, offset_after, followed_by, run_consumer,
}
use high_load_ledger.Stats.Reading.{cache_get-cache_set}

module _ (env : Env) where
  -- An answer of SET means that the entry is there.
  abbrev Stores : Transaction → World → Result (Unit {0}) × World → Type 0
  Stores tx w o =
      Wp (λ _ v. v.cache ≡ cache_set (transaction_key tx.id) (json tx) w.cache) (λ _. Unit {0}) o

  altered :
      (tx : Transaction) (fault : Fault) (w u : World)
      → u.cache ≡ w.cache
      → Stores tx w (alter fault (cache_set (transaction_key tx.id) (json tx)) u)
  unfolding Wp
  altered tx fine w u e = ap (cache_set (transaction_key tx.id) (json tx)) e
  altered tx (refused x) w u e = tt
  altered tx (lost x) w u e = tt

  set_transaction-Stores : (tx : Transaction) (w : World) → Stores tx w (set_transaction env tx w)
  unfolding set_transaction redis_set tick
  set_transaction-Stores tx w = altered tx (env.fault w.clock) w (tick env w) refl

  module _ (lib : UuidLib) where
    -- The transaction that a message is about.
    abbrev pub Decodes : Message → Transaction → Type 0
    Decodes msg tx =
        (raw : Transaction) × (msg.value ≡ some raw) × (with_key_id lib msg.key raw ≡ ok tx)

    -- The cache holds the transaction of the message.
    abbrev pub Caches : Message → World → Type 0
    Caches msg v =
        (tx : Transaction) × Decodes msg tx
        × (cache_get (transaction_key tx.id) v.cache ≡ some (json tx))

    handle-Wp :
        (msg : Message) (w : World)
        → Wp (λ _ v. Caches msg v) (λ _. Unit {0}) (handle_kafka_message env lib msg w)
    unfolding handle_kafka_message
    handle-Wp msg w =
        let k3 = λ (tx : Transaction) (_ : Unit {0}). set_transaction env tx in
        let k2 = λ (tx : Transaction). guard (tx.id == uuid_nil) empty_transaction_id >>= k3 tx in
        let k1 = λ (raw : Transaction). lift (with_key_id lib msg.key raw) >>= k2 in
        Wp-bind _ _ (lift (or_error msg.value decode_failed)) k1 w
          (Wp-lift (λ raw v. or_error msg.value decode_failed ≡ ok raw) _
            (or_error msg.value decode_failed) w (λ raw h. h) tt)
          λ raw w1 is_raw.
            Wp-bind _ _ (lift (with_key_id lib msg.key raw)) k2 w1
              (Wp-lift (λ tx v. with_key_id lib msg.key raw ≡ ok tx) _ (with_key_id lib msg.key raw)
                w1 (λ tx h. h) tt)
              λ tx w2 is_tx.
                Wp-bind _ _ (guard (tx.id == uuid_nil) empty_transaction_id) (k3 tx) w2
                  (guard-Wp (λ _ v. Unit {0}) _ (tx.id == uuid_nil) empty_transaction_id w2
                    (λ _. tt) (λ _. tt))
                  λ _ w3 _.
                    Wp-weaken _ _ _ (set_transaction-Stores tx w3)
                      (λ _ v e. (
                        tx,
                        (raw, some_of_or_error msg.value decode_failed raw is_raw, is_tx),
                        ap (cache_get (transaction_key tx.id)) e
                            ∙ cache_get-cache_set (transaction_key tx.id) (json tx) w3.cache,
                      ))
                      (λ _ _. tt)

    -- A message that was handled without an error is in the cache right after.
    abbrev pub IsHandled : Message → Result (Unit {0}) → World → Type 0
    IsHandled msg (ok _) v = Caches msg v
    IsHandled msg (err e) v = Unit

    abbrev pub EachHandled : List Handled → Type 0
    EachHandled l = All (λ h. IsHandled h.message h.result h.after) l

    IsHandled-of :
        (msg : Message) (o : Result (Unit {0}) × World)
        → Wp (λ _ v. Caches msg v) (λ _. Unit {0}) o
        → IsHandled msg o.0 o.1
    unfolding Wp
    IsHandled-of msg (ok a, v) h = h
    IsHandled-of msg (err e, v) h = tt

    -- The message before the committed offset was handled without an error.
    abbrev pub EndsHandled : ℕ → List Handled → Type 0
    EndsHandled zero l = Unit
    EndsHandled (suc n) [] = ⊥
    EndsHandled (suc zero) (h ∷ l) = (a : Unit {0}) × (h.result ≡ ok a)
    EndsHandled (suc (suc n)) (h ∷ l) = EndsHandled (suc n) l

    -- The messages from the committed offset on have failed, but for the last.
    abbrev pub RestFailed : ℕ → List Handled → Type 0
    RestFailed (suc n) [] = Unit
    RestFailed (suc n) (h ∷ l) = RestFailed n l
    RestFailed zero [] = Unit
    RestFailed zero (h ∷ []) = Unit
    RestFailed zero (h ∷ k ∷ l) = (e : Error) × (h.result ≡ err e) × RestFailed zero (k ∷ l)

    abbrev Good : Consumption → Type 0
    Good c = EachHandled c.handled × EndsHandled c.offset c.handled × RestFailed c.offset c.handled

    followed-Good :
        (msg : Message) (r : Result (Unit {0})) (v : World) (c : Consumption)
        → IsHandled msg r v
        → Good c
        → Good (followed_by (record { message = msg; result = r; after = v }) c)
    followed-Good msg r v c h (each, end, rest) =
        ((h, each), ending r c.offset end, failing r c.offset c.handled rest)
      where
        failing :
            (r : Result (Unit {0})) (n : ℕ) (l : List Handled)
            → RestFailed n l
            → RestFailed (offset_after r n) (record { message = msg; result = r; after = v } ∷ l)
        failing r (suc n) l f = f
        failing (ok a) zero l f = f
        failing (err x) zero [] f = tt
        failing (err x) zero (k ∷ l) f = (x, refl, f)

        ending :
            (r : Result (Unit {0})) (n : ℕ)
            → EndsHandled n c.handled
            → EndsHandled
                (offset_after r n)
                (record { message = msg; result = r; after = v } ∷ c.handled)
        ending r (suc n) e = e
        ending (ok a) zero e = (a, refl)
        ending (err x) zero e = tt

    abbrev handle : Message → M (Unit {0})
    handle = handle_kafka_message env lib

    delivered-Good :
        (msg : Message) (answer : Option DriverError) (o : Result (Unit {0}) × World)
        (rest : Consumption × World)
        → IsHandled msg o.0 o.1
        → Good rest.0
        → Good (delivered msg answer o.0 o.1 rest).0
    delivered-Good msg none (r, w) (c, v) h good = followed-Good msg r w c h good
    delivered-Good msg (some e) (ok a, w) rest h good = ((h, tt), tt, tt)
    delivered-Good msg (some e) (err x, w) (c, v) h good = followed-Good msg (err x) w c h good

    consumer-Good : (ds : List Delivery) (w : World) → Good (run_consumer env handle ds w).0
    unfolding run_consumer
    consumer-Good [] w = (tt, tt, tt)
    consumer-Good (fetch_failed e ∷ ds) w = (tt, tt, tt)
    consumer-Good (fetched msg answer ∷ ds) w =
        delivered-Good msg answer (handle msg w) (run_consumer env handle ds (handle msg w).1)
          (IsHandled-of msg (handle msg w) (handle-Wp msg w)) (consumer-Good ds (handle msg w).1)

-- Whatever messages of a partition come, and whatever calls fail or lose their answers: each message
-- that was handled without an error has its transaction in the cache right after, and the committed
-- offset, if there is one, stands behind such a message, and in front of no other but the last one,
-- whose commit may have failed. Messages before the offset whose handling has failed are passed over.
pub run_consumer-IsCached :
    (env : Env) (lib : UuidLib) (ds : List Delivery) (w : World)
    → let c = (run_consumer env (handle_kafka_message env lib) ds w).0 in
      EachHandled env lib c.handled
      × EndsHandled env lib c.offset c.handled
      × RestFailed env lib c.offset c.handled
run_consumer-IsCached env lib ds w = consumer-Good env lib ds w
