-- ===== src/Cache/Entry.antt =====
-- src/cache/entry.rs: a stored response, its freshness, and its conditional handling.
--
-- A `Duration` and an `Instant` are numbers of nanoseconds. Adding two durations panics where the sum
-- has no 64-bit number of seconds: such an operation answers an `Option`, `none` for the panic.
mod Ops
pub mod Fresh
unfoldable pub use Ops.*
