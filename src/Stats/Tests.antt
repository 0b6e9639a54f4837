-- ===== src/Stats/Tests.antt =====
-- A transaction goes through the queue into the cache.
use high_load_ledger.Prelude.{true, none, List, ◌≡◌, refl, [], ◌∷◌, some}
use high_load_ledger.Result.{Result, ok}
use high_load_ledger.Redis
use high_load_ledger.Stats.Defs.{
  fetch_failed, Consumption, fetched, Delivery, run_consumer, get_transaction,
}
use high_load_ledger.World.{Env, tick, World}
use high_load_ledger.Samples.{
  calm-IsQuiet, two_accounts, machinery, calm, first_world, sample_lib, sample_transaction,
}
use high_load_ledger.Redis.{set_transaction, cache_get}
use high_load_ledger.Stats.Defs.{message_of, handle_kafka_message}
use high_load_ledger.Store.Rows.{find_transaction}
use high_load_ledger.Stats.Reading.{get_transaction_projected}
use high_load_ledger.Stats.Coherent.{get_transaction_coherent}
use high_load_ledger.Store.Statements.{stored_row}
use high_load_ledger.Postgres.{get_transaction_by_id}
use high_load_ledger.Entity.{other, Transaction}
use high_load_ledger.Stats.Consumed.{run_consumer-IsCached, EachHandled, EndsHandled, RestFailed}

unfoldable handled : World → Result (Unit {0}) × World
unfolding machinery handle_kafka_message message_of set_transaction get_transaction
    Redis.get_transaction get_transaction_by_id
handled w = handle_kafka_message calm sample_lib (message_of sample_lib sample_transaction) w

abbrev handled_world : World
unfolding handled
handled_world = (handled first_world).1

get_transaction_projected_example :
    ((handle_kafka_message calm sample_lib (message_of sample_lib sample_transaction) first_world).0
      ≡ ok tt)
    × (get_transaction calm 900
          (handle_kafka_message calm sample_lib
            (message_of sample_lib sample_transaction)
            first_world).1
        ≡ (
          ok sample_transaction,
          tick calm
              (handle_kafka_message calm sample_lib
                (message_of sample_lib sample_transaction)
                first_world).1,
        ))
get_transaction_projected_example =
    get_transaction_projected calm sample_lib (λ _. refl) sample_transaction first_world refl

abbrev known_world : World
known_world = record first_world {
  db = record two_accounts { transactions = stored_row sample_transaction ∷ [] };
}

-- The queue fails after the message.
abbrev deliveries : List Delivery
deliveries = fetched (message_of sample_lib sample_transaction) none ∷ fetch_failed (other 3) ∷ []

abbrev consumed : Consumption × World
consumed = run_consumer calm (handle_kafka_message calm sample_lib) deliveries known_world

unfoldable reading : Result Transaction × World
unfolding handled run_consumer
reading = get_transaction calm 900 consumed.1

read_run : get_transaction calm 900 consumed.1 ≡ (ok sample_transaction, reading.1)
unfolding reading
read_run = refl

-- Once the entry has expired, the row is read from the table.
abbrev late : Env
late = record calm { expired = λ _ _. true }

unfoldable late_reading : Result Transaction
unfolding handled run_consumer get_transaction
late_reading = (get_transaction late 900 consumed.1).0

late_run : late_reading ≡ ok (stored_row sample_transaction)
unfolding late_reading
late_run = refl

get_transaction_coherent_example :
    (row : Transaction) × (find_transaction 900 known_world.db.transactions ≡ some row)
    × (stored_row sample_transaction ≡ stored_row row)
unfolding find_transaction
get_transaction_coherent_example =
    get_transaction_coherent calm sample_lib deliveries 900 known_world reading.1 sample_transaction
      calm-IsQuiet refl ((sample_transaction, refl, refl, refl), (tt, tt)) read_run

-- The second message has no value, and the commit of the third passes over it.
abbrev three_deliveries : List Delivery
three_deliveries =
    fetched (message_of sample_lib sample_transaction) none
    ∷ fetched (record { key = []; value = none }) none
    ∷ fetched (message_of sample_lib sample_transaction) none
    ∷ []

unfoldable three_consumed : Consumption
unfolding handled run_consumer
three_consumed =
    (run_consumer calm (handle_kafka_message calm sample_lib) three_deliveries first_world).0

all_passed : three_consumed.offset ≡ 3
unfolding three_consumed
all_passed = refl

run_consumer-IsCached_example :
    let c =
      (run_consumer calm (handle_kafka_message calm sample_lib) three_deliveries first_world).0 in
    EachHandled calm sample_lib c.handled
    × EndsHandled calm sample_lib c.offset c.handled
    × RestFailed calm sample_lib c.offset c.handled
run_consumer-IsCached_example = run_consumer-IsCached calm sample_lib three_deliveries first_world
