-- ===== src/Lib.antt =====
-- hypershunt: a verification of the core of the hypershunt web server.
--
-- hypershunt is a reverse proxy and web server in Rust. A connection may begin with a PROXY protocol
-- header. The router picks the virtual host and the location of a request, perhaps after rewrites. The
-- request passes the access policy of its location, may be answered from the response cache, and is
-- otherwise handed to a handler, of which the proxy picks an upstream by load balancing. Value
-- templates, with the variables of the configuration, give the text of headers, of redirect targets
-- and of cache keys.
--
-- The parts and their files:
--   Headers   src/headers.rs: `lex`, `Template::build`, `parse`, `compile`, `render`, `refs` and the
--             header rules' `apply`; with `VarNames` of src/vars.rs. A template is a list of parts;
--             a request context is a record of texts, and a variable's value a function of its id.
--   Vars      src/vars.rs: `build_layered` and what it compiles, `deps_of`, `check_cycles`,
--             `compute_needs`, `absorb`, `eval` and `VarScope::get`. A request's slots are a list of
--             texts that are set or not, and the renderer is written a second time with the slots as
--             its state.
--   Router    src/router.rs: `resolve_vhost`, `pick_location`, `apply_rewrite`, `route`, and the named
--             policies: `resolve_named_policies`, `inline_rules`, `resolve_block`. What a route takes
--             over from its location is one field; a matcher is a test on the request. The rules that
--             are resolved are those of `Access`.
--   ProxyProto  src/proxy_proto.rs: the builders and parsers of the header's two versions, on the bytes
--             of the stream.
--   Access    src/access.rs: `Predicate`, `PolicyBlock::new`, `with_vars`, `evaluate`,
--             `eval_predicate`, `resolve_principal`, with `Identity` and `Principal` of src/auth.rs.
--             The evaluation context is state that is passed on: it keeps the principal and counts the
--             provider's calls. A redirect's target is a template of `Headers`. `Rules` describes a
--             predicate's answer by rules, apart from the evaluator.
--   Lb        src/lb.rs: `Upstream`, `UpstreamPool::new`, `pick`, `pick_where`, `pick_least_conn`,
--             `record_success`, `record_failure`, the in-flight guard and the active health checks,
--             with the latency buckets of src/metrics.rs. An atomic is a field of the state, with its
--             wrap-around written out.
--   Cache     src/cache: `Entry` is entry.rs, `Store` is store.rs, `Control` and `Policy` are
--             policy.rs, `Key` is key.rs. The policy decides on a response, makes an entry of it and
--             puts it in the store; a lookup reads the store and judges the entry.
--   Files     src/handler/static_files.rs: `safe_join`, `percent_decode`, `html_escape`,
--             `url_encode_segment`, `parse_range_header`.
--   Http      the http crate's header maps as an interface (`HeaderMaps`) with the laws of a read
--             after a write; Net: the standard library's addresses.
--   Prelude   shared names, Boolean tests, lists, texts as bytes, results and decimals.
--   Tests     runs on concrete inputs, instances of the interfaces, and the theorems applied to them.
--
-- Conventions. A text is the list of its UTF-8 bytes. Unsigned integers are natural numbers; where the
-- source wraps, `% 2 ^ w` is written out, and a saturating difference is the difference of natural
-- numbers. A duration or an instant is a number of nanoseconds; adding two durations answers `none`
-- where Rust would panic. Third-party code (the `lru` crate's map, header maps, `DefaultHasher`, the
-- network type, the authentication provider) is a parameter with the documented laws.
--
-- Fuel. The lexer of templates runs on the length of the text plus one: a round consumes a brace.
-- The eviction loop runs on the number of entries: a round takes one out. A ring scan has a round for
-- each position of the ring. Decimal printing runs on the number plus one: a round divides by ten. All
-- other recursion is structural.
--
-- Not modelled: the construction of the router from a configuration, rate limiting, authentication back ends, the proxy and gateway handlers, listeners,
-- certificates, configuration, reload and the status pages; these are I/O, wiring, or third-party
-- code, or are left for later.
pub mod Access
pub mod Cache
pub mod Files
pub mod Headers
pub mod Http
pub mod Lb
pub mod Net
pub mod Prelude
pub mod ProxyProto
pub mod Router
pub mod Tests
pub mod Vars
