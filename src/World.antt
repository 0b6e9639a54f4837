-- ===== src/World.antt =====
-- What the services run in: the database with its open transaction, the caches, the message queue
-- and the counters, and everything that the environment decides.
--
-- The environment is asked once for each call that leaves the process. The call's number, the
-- clock, is the argument of its answers, so that a theorem over every `Env` covers every
-- failure at every place.
mod Choices
mod State
mod Monad
pub mod Frame
pub mod Sure
pub mod Rely
unfoldable pub use Choices.*
unfoldable pub use State.*
unfoldable pub use Monad.*
