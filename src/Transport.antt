-- ===== src/Transport.antt =====
-- internal/transport/grpc and internal/repository/redis/idempotency.go: the handlers of the services
-- and the interceptor that answers a repeated transfer.
mod Observed
mod Status
mod Handlers
mod Interceptor
pub mod Results
pub mod Failures
mod Tests
unfoldable pub use Observed.*
unfoldable pub use Status.*
unfoldable pub use Handlers.*
unfoldable pub use Interceptor.*
