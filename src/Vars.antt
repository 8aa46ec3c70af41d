-- ===== src/Vars.antt =====
-- src/vars.rs: the variables that a configuration defines, their table, its checks and its values.
--
-- A regex is a type `Regex` with the operations of the regex crate that the source calls; a match is
-- a function from a group's number.
mod Defs
mod Cycles
mod Build
mod Values
mod Needs
mod Rendering
pub mod Memo
pub mod Reads
mod Coverage
pub mod Enough
pub mod Gates
pub mod Absorb
mod Scoped
mod Closed
mod Built
pub mod Total
pub mod Choice
pub mod Layers
mod Marks
pub mod Acyclic
unfoldable pub use Defs.*
unfoldable pub use Cycles.*
unfoldable pub use Build.*
unfoldable pub use Values.*
unfoldable pub use Needs.*
