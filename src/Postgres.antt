-- ===== src/Postgres.antt =====
-- internal/repository/postgres: the repository over one connection.
--
-- `Driver` is what the code relies on of pgx and Postgres: a statement runs in the open
-- transaction or by itself, and any call can fail. A statement that fails inside a transaction
-- aborts it. A commit whose answer is lost has taken place.
mod Driver
mod Repository
mod Queries
pub mod Specs
pub mod Calls
pub mod Block
pub mod Sure
unfoldable pub use Driver.*
unfoldable pub use Repository.*
unfoldable pub use Queries.*
