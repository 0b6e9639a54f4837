-- ===== src/Lib.antt =====
-- High-load ledger: transfers between accounts with a journal of postings, over Postgres, Redis and
-- Kafka.
--
-- internal/domain/entity is in Entity: the records and the errors. Result is a Go call that returns a
-- value and an error.
--
-- migrations/000001_init_schema.up.sql and the SQL of internal/repository/postgres are in Store: the
-- tables as lists of rows, each statement a function that checks the constraints of the schema in
-- the order in which Postgres reports them. Store/Ledger says when the tables are a consistent ledger.
--
-- World is what the services run in: the committed tables, the view of the open transaction, the
-- cache, what was published and counted, and a clock that numbers the calls. An Env answers for all
-- that the program does not decide: whether call n works, fails, or takes effect and loses its
-- answer; what other sessions have committed when it reaches the database; whether the entry of the
-- cache that it reads has expired, which covers any time to live; ids, times and random numbers. A theorem over every Env covers every failure at every call and every interleaving with
-- other sessions. World/Frame has the rules by which facts about calls join along a do block.
--
-- World/Sure has the rules for runs in which nothing fails.
--
-- Postgres is internal/repository/postgres: Driver is pgx.Tx and pgxpool.Pool, Repository the
-- methods that take a transaction, Queries the others, Block a transaction that is rolled back on
-- error. Redis is the cache of internal/repository/redis.
--
-- Transfer is internal/usecase/transfer.go, Accounts internal/usecase/account.go, Worker
-- internal/usecase/posting_worker.go, Stats internal/usecase/stats.go and transaction_cache.go with
-- internal/infra/kafka, and Transport internal/transport/grpc with
-- internal/repository/redis/idempotency.go and the request counters of
-- internal/infra/telemetry/metrics.go. Transfer/Spec is the abstract view of a transfer, a book of
-- balances and used keys. Transfer/Guarantee is the transfers of other sessions: the locks on its rows
-- make each take effect at its commit. Wire holds bytes, codes and replies; google/uuid is a
-- record of functions there, with the laws that its two forms are read back.
--
-- The two cache reads of validateTransferCurrencies, which run at once, run in order. The goroutine
-- that publishes is seen up to its start, the one that writes the final status of a key is a step of
-- its own. PostingWorker.Run loops for ever; run takes the number of iterations, and what is proved
-- holds for each number. ValidateBalance takes the bound of eight steps from the code. An id is the
-- number that its bytes spell.
--
-- Loadgen is loadgen/service. Pool and Builder are pool.go and builder.go: the load generator's own
-- model of the accounts, and the transfers that it builds; a mutex makes each operation of the pool
-- one step, and random numbers come from a list. Calls is transfer.go and Accounts.go, Jobs core.go,
-- Counters stats.go and the decisions of metrics.go, Stream scheduler.go for one stream. Load is
-- runLoad: the streams, the workers and the channel take their steps in any order, a job that is sent
-- is counted in a later step, and a call of the gateway and what follows its answer are one. The
-- gateway, float64 and what clock, context and channel do in a round are parameters; a stream runs for
-- as many rounds as there are.
--
-- Setup is internal/config and internal/infra/logger: what is computed from the settings.
--
-- A TIMESTAMPTZ keeps microseconds: the row of a transaction has its time cut to these, the message and
-- the cache have it whole.
--
-- Not modelled: the time to live of an idempotency key, the locks that a transaction holds on rows, log output, the
-- metrics but for the counters, how a library fills the configuration from the environment, and the
-- commands that wire the parts.
pub mod Prelude
pub mod Entity
pub mod Result
pub mod Store
pub mod World
pub mod Wire
pub mod Postgres
pub mod Redis
pub mod Samples
pub mod Transfer
pub mod Accounts
pub mod Worker
pub mod Setup
pub mod Stats
pub mod Transport
pub mod Loadgen
