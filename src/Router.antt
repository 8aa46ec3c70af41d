-- ===== src/Router.antt =====
-- src/router.rs: which virtual host, which location and which policy a request meets.
mod Defs
mod Policies
pub mod Locate
pub mod Rewrites
pub mod Inlining
pub mod Resolution
pub mod Depth
unfoldable pub use Defs.*
unfoldable pub use Policies.*
