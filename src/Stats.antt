-- ===== src/Stats.antt =====
-- internal/usecase/stats.go, internal/usecase/transaction_cache.go and internal/infra/kafka: a
-- transaction goes from the publisher through the queue into the cache, and is read from there.
mod Defs
pub mod Reading
pub mod Consumed
pub mod Coherent
pub mod Found
mod Tests
unfoldable pub use Defs.*
