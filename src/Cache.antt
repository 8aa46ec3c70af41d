-- ===== src/Cache.antt =====
-- src/cache: the shared response cache.
pub mod Entry
pub mod Control
pub mod Key
pub mod Store
pub mod Policy
