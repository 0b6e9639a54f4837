-- ===== src/Worker.antt =====
-- internal/usecase/posting_worker.go: the worker that compares the balances of active accounts with
-- the journal and repairs them.
mod Defs
pub mod Sums
pub mod Active
pub mod Steps
pub mod Correction
pub mod Validation
pub mod Results
pub mod Loop
pub mod Uncanceled
pub mod Limits
pub mod Progress
mod Tests
unfoldable pub use Defs.*
