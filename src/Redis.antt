-- ===== src/Redis.antt =====
-- internal/repository/redis: the cache. `fmt.Sprintf("balance:%s", id)` and its like are injective
-- and have different prefixes, so a key is the family and the id. The time to live that an
-- entry is set with decides from when on a read finds nothing; `expired` of an Env stands for any.
mod Client
mod Cache
pub mod Specs
pub mod Sure
unfoldable pub use Client.*
unfoldable pub use Cache.*
