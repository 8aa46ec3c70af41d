-- ===== src/Cache/Policy.antt =====
-- src/cache/policy.rs: what may be cached, for how long, and how a request is answered from the cache.
--
-- A duration and an instant are numbers of nanoseconds. An operation that adds two durations panics
-- where the sum has no 64-bit number of seconds, and answers `none` there.
mod Defs
mod Handlers
pub mod Storable
pub mod Serving
pub mod Writing
unfoldable pub use Defs.*
unfoldable pub use Handlers.*
