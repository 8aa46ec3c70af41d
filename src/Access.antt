-- ===== src/Access.antt =====
-- src/access.rs: policy-based access control.
--
-- A network (`ipnet::IpNet`) and its membership test are the section parameters `Net` and `contains`.
-- The answers of the authentication provider are a function from the number of the call, and the
-- state counts the calls.
mod Defs
mod Eval
pub mod Meaning
pub mod Policy
pub mod First
pub mod Built
pub mod Rules
pub mod Answers
pub mod Needs
pub mod Identified
unfoldable pub use Defs.*
unfoldable pub use Eval.*
