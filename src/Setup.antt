-- ===== src/Setup.antt =====
-- internal/config and internal/infra/logger: what the commands start from.
mod Config
mod Logger
mod Tests
unfoldable pub use Config.*
unfoldable pub use Logger.*
