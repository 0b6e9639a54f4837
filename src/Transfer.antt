-- ===== src/Transfer.antt =====
-- internal/usecase/transfer.go: the money transfer. Both reads of the cache run at once there and
-- only read, so here the first comes first. The publishing goroutine is seen up to its start.
mod Defs
pub mod Validation
pub mod Run
pub mod Outcome
pub mod Counted
pub mod Effect
pub mod Atomicity
pub mod Consistency
pub mod Total
pub mod Guarantee
pub mod Spec
pub mod Refines
pub mod Checked
pub mod Success
pub mod Completed
mod Tests
unfoldable pub use Defs.*
