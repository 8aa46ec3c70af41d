-- ===== src/Headers/Render.antt =====
-- `Template::render` and `render_with_captures` of src/headers.rs.
use hypershunt.Prelude.{ℕ, Option, none, some, List, [], ◌∷◌, ◌++◌}
use hypershunt.Prelude.Text.{Text}
use hypershunt.Headers.Defs.{
  KnownVar, client_ip, username, groups, method, path, query, path_and_query, host, scheme,
  client_cert_subject, client_cert_sans, country, Part, literal, var, custom, header, capture,
  unknown, RequestContext, header_value,
}

unfoldable pub known_value : KnownVar → RequestContext → Text
known_value client_ip ctx = ctx.client_ip
known_value username ctx = ctx.username
known_value groups ctx = ctx.groups
known_value method ctx = ctx.method
known_value path ctx = ctx.path
known_value query ctx = ctx.query
known_value path_and_query ctx = ctx.path_and_query
known_value host ctx = ctx.host
known_value scheme ctx = ctx.scheme
known_value client_cert_subject ctx = ctx.client_cert_subject
known_value client_cert_sans ctx = ctx.client_cert_sans
known_value country ctx = ctx.country

-- `caps.and_then(|c| c.get(i)).map(as_str).unwrap_or("")`.
unfoldable pub capture_value : Option (ℕ → Option Text) → ℕ → Text
capture_value none i = []
capture_value (some caps) i = elim (caps i) [ some m ↦ m | none ↦ [] ]

-- An empty value takes the fallback, if there is one.
unfoldable pub or_fallback : Text → Option Text → Text
or_fallback [] none = []
or_fallback [] (some d) = d
or_fallback (b ∷ s) fb = b ∷ s

unfoldable pub render_part : RequestContext → Option (ℕ → Option Text) → Part → Text
render_part ctx caps (literal s) = s
render_part ctx caps (unknown s) = s
render_part ctx caps (var v fb) = or_fallback (known_value v ctx) fb
render_part ctx caps (custom id fb) = or_fallback (ctx.vars id) fb
render_part ctx caps (header name fb) = or_fallback (header_value ctx name) fb
render_part ctx caps (capture i fb) = or_fallback (capture_value caps i) fb

unfoldable pub render_inner : RequestContext → Option (ℕ → Option Text) → List Part → Text
unfolding render_part or_fallback capture_value known_value header_value
render_inner ctx caps [] = []
render_inner ctx caps (p ∷ parts) = render_part ctx caps p ++ render_inner ctx caps parts

unfoldable pub render : RequestContext → List Part → Text
unfolding render_inner
render ctx parts = render_inner ctx none parts
