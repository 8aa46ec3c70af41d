-- ===== src/Headers.antt =====
-- src/headers.rs: value templates, their lexer, compiler and renderer.
--
-- `HeaderName::from_bytes` is the http crate's: the section parameter `header_name`. A header name is
-- its canonical text. The captures of a regex match are a function from a group's number.
mod Defs
pub mod Lex
pub mod Build
pub mod Render
pub mod Lossless
pub mod Verbatim
pub mod Refs
pub mod Ops
pub use Defs.{
  KnownVar, client_ip, username, groups, method, path, query, path_and_query, host, scheme,
  client_cert_subject, client_cert_sans, country, Part, literal, var, custom, header, capture,
  unknown, RequestContext, CaptureScope, VarNames, digit_group,
}
unfoldable pub use Defs.{header_value, insert, get, find_name, known_var, lookup}
