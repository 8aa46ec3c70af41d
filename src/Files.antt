-- ===== src/Files.antt =====
-- src/handler/static_files.rs: what a path, a range and a listing's text mean, apart from the I/O.
pub mod Range
pub mod Escape
pub mod Join
