-- ===== src/Loadgen.antt =====
-- loadgen/service: the local model of the accounts that the load generator keeps, and the transfers
-- it builds from it.
mod Pool
mod Builder
pub mod Index
pub mod Reserve
pub mod Adding
pub mod Draws
mod Counters
mod Calls
mod Jobs
mod Stream
mod Load
pub mod Balances
pub mod Returned
pub mod Turns
pub mod Filling
pub mod Opening
pub mod Counted
pub mod Rounds
pub mod Service
pub mod Running
pub mod Moves
pub mod Steps
pub mod Drained
pub mod Ending
pub mod Tests
pub mod RunTests
mod LoadTests
unfoldable pub use Pool.*
unfoldable pub use Builder.*
unfoldable pub use Counters.*
unfoldable pub use Calls.*
unfoldable pub use Jobs.*
unfoldable pub use Stream.*
unfoldable pub use Load.*
