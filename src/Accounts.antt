-- ===== src/Accounts.antt =====
-- internal/usecase/account.go: opening an account with its first posting, and reading one.
mod Defs
pub mod Opened
pub mod Created
pub mod Results
pub mod Consistency
mod Tests
unfoldable pub use Defs.*
