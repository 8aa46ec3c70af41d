-- ===== src/ProxyProto.antt =====
-- src/proxy_proto.rs: PROXY protocol headers, built for a backend and parsed from a listener.
--
-- A stream is the list of the bytes still to be read; a parser answers with the rest of it.
mod Defs
pub mod Binary
pub mod Line
unfoldable pub use Defs.*
