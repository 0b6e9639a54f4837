-- ===== src/Stats/Coherent.antt =====
-- A reader after the consumer: the way of transactions from the queue into the cache and to a
-- client.
use high_load_ledger.Prelude.{
  All, List, eq_of_==, Bool-cases, false, ◌≡◌, refl, ap, sym, subst, ◌∙◌, Option, none, some, [],
  ◌∷◌, ◌==◌, inl, inr,
}
use high_load_ledger.Entity.{DriverError, Uuid, uuid_nil, Transaction}
use high_load_ledger.Result.{Result, ok, err}
use high_load_ledger.Stats.Defs.{get_transaction}
use high_load_ledger.World.{
  IsQuiet, fine, refused, lost, json, tick, Fault, transaction_key, Env, World, M,
}
use high_load_ledger.Wire.{UuidLib}
use high_load_ledger.Redis.{redis_set, set_transaction, answer, alter, cache_set, cache_get}
use high_load_ledger.Stats.Defs.{with_key_id, message_of, handle_kafka_message}
use high_load_ledger.Store.Rows.{find_transaction}
use high_load_ledger.World.Frame.{Wp}
use high_load_ledger.Store.Statements.{stored_row}
use high_load_ledger.Stats.Defs.{
  Message, Delivery, fetch_failed, fetched, Consumption, delivered, run_consumer,
}
use high_load_ledger.Stats.Reading.{cache_get-cache_set}
use high_load_ledger.Store.{Tables}
use high_load_ledger.Stats.Found.{IsCoherent, Read, cache_get-set_ne, read-Wp}

-- A delivery of the message of a committed transaction, or none.
abbrev pub OfCommitted : UuidLib → Tables → Delivery → Type 0
OfCommitted lib t (fetch_failed e) = Unit
OfCommitted lib t (fetched msg answer) =
    (tx : Transaction) × (msg ≡ message_of lib tx)
    × ((tx.id == uuid_nil) ≡ false)
    × (find_transaction tx.id t.transactions ≡ some (stored_row tx))

module _ (env : Env) (lib : UuidLib) (quiet : IsQuiet env) (t : Tables) where
  abbrev Follows : World → Type 0
  Follows v = IsCoherent v × (v.db ≡ t)

  handled_as_set :
      (tx : Transaction) (w : World)
      → (tx.id == uuid_nil) ≡ false
      → handle_kafka_message env lib (message_of lib tx) w ≡ set_transaction env tx w
  unfolding handle_kafka_message message_of with_key_id
  handled_as_set tx w h = rw (h, h) refl

  cached-IsCoherent :
      (tx : Transaction) (w v : World)
      → find_transaction tx.id t.transactions ≡ some (stored_row tx)
      → Follows w
      → v.db ≡ t
      → v.cache ≡ cache_set (transaction_key tx.id) (json tx) w.cache
      → Follows v
  cached-IsCoherent tx w v known (c, same) d e = (record { coherent = each }, d)
    where
      each :
          (id : Uuid) (trx : Transaction)
          → cache_get (transaction_key id) v.cache ≡ some (json trx)
          → find_transaction id v.db.transactions ≡ some (stored_row trx)
      each id trx h = elim (Bool-cases (id == tx.id)) [
        | inl here ↦
            let k = eq_of_== id tx.id here in
            let entry : some (json tx) ≡ some (json trx) =
              sym (
                ap (λ z. cache_get (transaction_key z) v.cache) k
                ∙ ap (cache_get (transaction_key tx.id)) e
                ∙ cache_get-cache_set (transaction_key tx.id) (json tx) w.cache)
              ∙ h in
            let this : tx ≡ trx = cc entry in
            ap (λ u. find_transaction id u.transactions) d
            ∙ ap (λ z. find_transaction z t.transactions) k
            ∙ known
            ∙ ap (λ x. some (stored_row x)) this
        | inr apart ↦
            let before =
              sym (
                ap (cache_get (transaction_key id)) e
                ∙ cache_get-set_ne tx.id id (json tx) w.cache apart)
              ∙ h in
            ap (λ u. find_transaction id u.transactions) (d ∙ sym same) ∙ c.coherent id trx before
      ]

  unchanged-IsCoherent : (w v : World) → v.db ≡ w.db → v.cache ≡ w.cache → Follows w → Follows v
  unchanged-IsCoherent w v d e (c, same) = (
    record {
      coherent = λ id trx h.
          ap (λ u. find_transaction id u.transactions) d
          ∙ c.coherent id trx (sym (ap (cache_get (transaction_key id)) e) ∙ h);
    },
    d ∙ same,
  )

  altered-Follows :
      (tx : Transaction) (fault : Fault) (w u : World)
      → find_transaction tx.id t.transactions ≡ some (stored_row tx)
      → u.db ≡ w.db
      → u.cache ≡ w.cache
      → Follows w
      → Follows (alter fault (cache_set (transaction_key tx.id) (json tx)) u).1
  altered-Follows tx fine w u known d e f =
      cached-IsCoherent tx w _ known f (d ∙ f.1)
        (ap (cache_set (transaction_key tx.id) (json tx)) e)
  altered-Follows tx (refused x) w u known d e f = unchanged-IsCoherent w u d e f
  altered-Follows tx (lost x) w u known d e f =
      cached-IsCoherent tx w _ known f (d ∙ f.1)
        (ap (cache_set (transaction_key tx.id) (json tx)) e)

  set_transaction-Follows :
      (tx : Transaction) (w : World)
      → find_transaction tx.id t.transactions ≡ some (stored_row tx)
      → Follows w
      → Follows (set_transaction env tx w).1
  unfolding set_transaction redis_set tick
  set_transaction-Follows tx w known f =
      altered-Follows tx (env.fault w.clock) w (tick env w) known (quiet.alone w.clock w.db) refl f

  abbrev handle : Message → M (Unit {0})
  handle = handle_kafka_message env lib

  handle-Follows :
      (msg : Message) (answer : Option DriverError) (w : World)
      → OfCommitted lib t (fetched msg answer)
      → Follows w
      → Follows (handle msg w).1
  handle-Follows msg answer w (tx, same, present, known) f =
      subst (λ m. Follows (handle m w).1) (sym same)
        (subst (λ o. Follows o.1) (sym (handled_as_set tx w present))
          (set_transaction-Follows tx w known f))

  delivered-Follows :
      (msg : Message) (answer : Option DriverError) (r : Result (Unit {0})) (w : World)
      (rest : Consumption × World)
      → Follows w
      → Follows rest.1
      → Follows (delivered msg answer r w rest).1
  delivered-Follows msg none r w (c, v) f g = g
  delivered-Follows msg (some e) (ok a) w rest f g = f
  delivered-Follows msg (some e) (err x) w (c, v) f g = g

  run_consumer-Follows :
      (ds : List Delivery) (w : World)
      → All (OfCommitted lib t) ds
      → Follows w
      → Follows (run_consumer env handle ds w).1
  unfolding run_consumer
  run_consumer-Follows [] w all f = f
  run_consumer-Follows (fetch_failed e ∷ ds) w all f = f
  run_consumer-Follows (fetched msg answer ∷ ds) w (of_committed, all) f =
      let g = handle-Follows msg answer w of_committed f in
      delivered-Follows msg answer (handle msg w).0 (handle msg w).1 _ g
        (run_consumer-Follows ds (handle msg w).1 all g)

-- From an empty cache, while no other session writes: after the consumer has run over any messages
-- that the producer wrote for committed transactions, with ids that are not nil, a reader who gets
-- a transaction for an id gets the committed row with this id, to the microsecond, whether it comes
-- from the cache or from the table, whatever entries have expired by then, and whatever calls have
-- failed or lost their answers.
pub get_transaction_coherent :
    (env : Env) (lib : UuidLib) (ds : List Delivery) (id : Uuid) (w v : World) (trx : Transaction)
    → IsQuiet env
    → w.cache ≡ []
    → All (OfCommitted lib w.db) ds
    → get_transaction env id (run_consumer env (handle_kafka_message env lib) ds w).1 ≡ (ok trx, v)
    → Read id w.db trx
unfolding Wp cache_get
get_transaction_coherent env lib ds id w v trx quiet cold all h =
    let start : IsCoherent w = record {
      coherent = λ i x found. cc (sym (ap (cache_get (transaction_key i)) cold) ∙ found);
    } in
    let u = (run_consumer env (handle_kafka_message env lib) ds w).1 in
    let (c, same) = run_consumer-Follows env lib quiet w.db ds w all (start, refl) in
    subst (λ t. Read id t trx) same
      (subst (Wp (λ x _. Read id u.db x) (λ _. Unit {0})) h (read-Wp env quiet id u c))
