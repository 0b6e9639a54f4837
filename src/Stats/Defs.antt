-- ===== src/Stats/Defs.antt =====
-- `StatsUseCase`, `TransactionCacheProjector`, the producer and the loop of the consumer.
use high_load_ledger.Prelude.{
  ℕ, zero, suc, suc, ℕ, Option, none, some, List, [], ◌∷◌, ◌==◌, ◌&&◌, length, if◌then◌else◌,
}
use high_load_ledger.Entity.{
  Uuid, DriverError, Error, driver, uuid_nil, Transaction, decode_failed, empty_transaction_id,
}
use high_load_ledger.Result.{Result, ok, err, or_error}
use high_load_ledger.World.{Env, World, M, ◌>>=◌, ◌>>◌, pure, lift, guard}
use high_load_ledger.Postgres.{get_transaction_by_id}
use high_load_ledger.Redis.{set_transaction}
use high_load_ledger.Redis
use high_load_ledger.Wire.{Bytes, UuidLib}

-- `kafka.Message`: the key, and what `json.Unmarshal` makes of the value.
pub record Message : Type 0 where
  pub key : Bytes
  pub value : Option Transaction

-- The message that `PublishTransaction` writes.
unfoldable pub message_of : UuidLib → Transaction → Message
message_of lib tx = record { key = lib.bytes tx.id; value = some tx }

-- The id of the message's key, for a transaction without one.
unfoldable pub with_key_id : UuidLib → Bytes → Transaction → Result Transaction
with_key_id lib key tx =
    if tx.id == uuid_nil && length key == 16
    then elim (lib.from_bytes key) as (λ _. Result Transaction) [
      | none ↦ err decode_failed
      | some id ↦ ok (record tx { id = id })
    ]
    else ok tx

module _ (env : Env) where
  -- `StatsUseCase.GetTransaction`
  unfoldable pub get_transaction : Uuid → M Transaction
  get_transaction id = do
    cached ← Redis.get_transaction env id
    elim cached as (λ _. M Transaction) [ some tx ↦ pure tx | none ↦ get_transaction_by_id env id ]

  -- `HandleKafkaMessage`
  unfoldable pub handle_kafka_message : UuidLib → Message → M (Unit {0})
  unfolding with_key_id
  handle_kafka_message lib msg = do
    decoded ← lift (or_error msg.value decode_failed)
    tx ← lift (with_key_id lib msg.key decoded)
    guard (tx.id == uuid_nil) empty_transaction_id
    set_transaction env tx

-- `PublishTransaction`, with what `WriteMessages` returns for the message, none for nil.
unfoldable pub publish_transaction :
    UuidLib → (Message → Option DriverError) → Transaction → Result (Unit {0})
unfolding message_of
publish_transaction lib write_messages tx =
    elim (write_messages (message_of lib tx)) as (λ _. Result (Unit {0})) [
      | none ↦ ok tt
      | some e ↦ err (driver e)
    ]

-- A round of `Consumer.Run`: `FetchMessage` fails, or it returns a message, for which
-- `CommitMessages` would return nil, which is none, or an error.
pub data Delivery : Type 0 where
  fetch_failed : DriverError → Delivery
  fetched : Message → Option DriverError → Delivery

-- What the handler makes of a message, and the process after it.
pub record Handled : Type 0 where
  pub message : Message
  pub result : Result (Unit {0})
  pub after : World

-- The messages of a partition in the order of their offsets, and how many of them stand before the
-- committed offset; the error that the loop has ended with, if it has.
pub record Consumption : Type 0 where
  pub handled : List Handled
  pub offset : ℕ
  pub ended : Option Error

abbrev pub ended_with : Option Error → Consumption
ended_with e = record { handled = []; offset = 0; ended = e }

-- The offset after the first message: a commit of a later one moves it past all before.
abbrev pub offset_after : Result (Unit {0}) → ℕ → ℕ
offset_after r (suc n) = suc (suc n)
offset_after (ok _) zero = 1
offset_after (err e) zero = 0

abbrev pub followed_by : Handled → Consumption → Consumption
followed_by h c = record {
  handled = h ∷ c.handled;
  offset = offset_after h.result c.offset;
  ended = c.ended;
}

-- `CommitMessages` fails.
abbrev pub uncommitted : Handled → Error → Consumption
uncommitted h e = record { handled = h ∷ []; offset = 0; ended = some e }

-- `if ctx.Err() != nil { return ctx.Err() }; return err`
abbrev pub fetch_error : Option DriverError → DriverError → Error
fetch_error none e = driver e
fetch_error (some c) e = driver c

-- What a message adds to the rounds after it, with the answer of `CommitMessages`.
abbrev pub delivered :
    Message
    → Option DriverError
    → Result (Unit {0})
    → World
    → Consumption × World
    → Consumption × World
delivered msg none r w (c, v) = (followed_by (record { message = msg; result = r; after = w }) c, v)
delivered msg (some e) (ok a) w rest =
    (uncommitted (record { message = msg; result = ok a; after = w }) (driver e), w)
delivered msg (some e) (err x) w (c, v) =
    (followed_by (record { message = msg; result = err x; after = w }) c, v)

-- `Consumer.Run`, for as many rounds as there are.
unfoldable pub run_consumer :
    Env → (Message → M (Unit {0})) → List Delivery → World → Consumption × World
run_consumer env handle [] w = (ended_with none, w)
run_consumer env handle (fetch_failed e ∷ ds) w =
    (ended_with (some (fetch_error (env.context_error w.clock) e)), w)
run_consumer env handle (fetched msg answer ∷ ds) w =
    let (r, w') = handle msg w in delivered msg answer r w' (run_consumer env handle ds w')
