-- ===== src/Cache/Store.antt =====
-- src/cache/store.rs: the response store, an LRU map under a byte budget, and its fetch coalescing.
--
-- `lru::LruCache` is the interface `Lru`: its operations and, over the list of its entries from the
-- most recently used on, what its documentation says of them.
mod Defs
pub mod Assoc
pub mod Bytes
pub mod Insert
pub mod Evict
pub mod Flight
unfoldable pub use Defs.*
