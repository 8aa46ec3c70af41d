-- ===== src/Lb.antt =====
-- src/lb.rs: load balancing over a pool of upstreams.
--
-- An upstream's atomics are fields; an operation returns the new record. A pool owns its upstreams in
-- order, and a pick answers an upstream's index. The hash of the standard library's `DefaultHasher`,
-- the clock and the header map are parameters or arguments.
mod Defs
mod Pick
pub mod Counters
pub mod Ejection
pub mod Ring
pub mod Scan
pub mod Least
pub mod Choice
pub mod Total
pub mod Outcome
pub mod Group
pub mod Health
unfoldable pub use Defs.*
unfoldable pub use Pick.*
