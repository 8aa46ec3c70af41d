-- ===== src/Headers/Refs.antt =====
-- `Template::references_principal` and `Template::refs` of src/headers.rs, and what a rendering
-- depends on: no field of the context but those that `refs` reports.
use hypershunt.Prelude.{
  ℕ, ◌≡◌, refl, ap, Bool, true, false, ◌||◌, Option, List, [], ◌∷◌, ◌++◌, any, arith, ◌==◌,
  if◌then◌else◌,
}
use mathlib.Core.Path.{ap₂}
use hypershunt.Prelude.Text.{Text, contains_text, contains_text-append_left, contains_text-snoc}
use hypershunt.Headers.Defs.{
  client_ip, username, groups, method, path, query, path_and_query, host, scheme,
  client_cert_subject, client_cert_sans, country, Part, literal, var, custom, header, capture,
  unknown, RequestContext, header_value,
}
use hypershunt.Headers.Render.{render_inner, render_part, or_fallback, known_value}

-- `TemplateRefs`.
pub record TemplateRefs : Type 0 where
  pub principal : Bool
  pub geoip : Bool
  pub headers : List Text
  pub vars : List ℕ

abbrev pub is_principal : Part → Bool
is_principal (var username fb) = true
is_principal (var groups fb) = true
is_principal _ = false

unfoldable pub references_principal : List Part → Bool
references_principal parts = any is_principal parts

unfoldable pub contains_id : List ℕ → ℕ → Bool
contains_id [] id = false
contains_id (i ∷ ids) id = i == id || contains_id ids id

unfoldable pub add_ref : TemplateRefs → Part → TemplateRefs
add_ref r (var username fb) = record r { principal = true }
add_ref r (var groups fb) = record r { principal = true }
add_ref r (var country fb) = record r { geoip = true }
add_ref r (header name fb) =
    if contains_text r.headers name then r else record r { headers = r.headers ++ name ∷ [] }
add_ref r (custom id fb) =
    if contains_id r.vars id then r else record r { vars = r.vars ++ id ∷ [] }
add_ref r _ = r

abbrev pub no_refs : TemplateRefs
no_refs = record { principal = false; geoip = false; headers = []; vars = [] }

-- The loop of `refs`.
unfoldable pub refs_from : TemplateRefs → List Part → TemplateRefs
refs_from r [] = r
refs_from r (p ∷ parts) = refs_from (add_ref r p) parts

unfoldable pub refs : List Part → TemplateRefs
unfolding refs_from add_ref contains_id
refs parts = refs_from no_refs parts

-- Two contexts agree on all that the references name, and on the fields that are always there.
pub record Agrees (r : TemplateRefs) (c d : RequestContext) : Type 0 where
  pub client_ip : c.client_ip ≡ d.client_ip
  pub username : r.principal ≡ true → c.username ≡ d.username
  pub groups : r.principal ≡ true → c.groups ≡ d.groups
  pub method : c.method ≡ d.method
  pub path : c.path ≡ d.path
  pub query : c.query ≡ d.query
  pub path_and_query : c.path_and_query ≡ d.path_and_query
  pub host : c.host ≡ d.host
  pub scheme : c.scheme ≡ d.scheme
  pub client_cert_subject : c.client_cert_subject ≡ d.client_cert_subject
  pub client_cert_sans : c.client_cert_sans ≡ d.client_cert_sans
  pub country : r.geoip ≡ true → c.country ≡ d.country
  pub headers : (n : Text) → contains_text r.headers n ≡ true → header_value c n ≡ header_value d n
  pub vars : (id : ℕ) → contains_id r.vars id ≡ true → c.vars id ≡ d.vars id

pub contains_id-append_left :
    (xs ys : List ℕ) (i : ℕ) → contains_id xs i ≡ true → contains_id (xs ++ ys) i ≡ true
unfolding contains_id
contains_id-append_left [] ys i h = ground arith
contains_id-append_left (x ∷ xs) ys i h = ground (arith, contains_id-append_left xs ys i)

pub contains_id-snoc : (xs : List ℕ) (i : ℕ) → contains_id (xs ++ i ∷ []) i ≡ true
unfolding contains_id
contains_id-snoc [] i = ground arith
contains_id-snoc (x ∷ xs) i = ground (arith, contains_id-snoc xs i)

-- `s` names all that `r` names.
pub record Extends (r s : TemplateRefs) : Type 0 where
  pub principal : r.principal ≡ true → s.principal ≡ true
  pub geoip : r.geoip ≡ true → s.geoip ≡ true
  pub headers : (n : Text) → contains_text r.headers n ≡ true → contains_text s.headers n ≡ true
  pub vars : (i : ℕ) → contains_id r.vars i ≡ true → contains_id s.vars i ≡ true

pub Extends-refl : (r : TemplateRefs) → Extends r r
Extends-refl r = record { principal = λ h. h; geoip = λ h. h; headers = λ n h. h; vars = λ i h. h }

add_ref-Extends : (r : TemplateRefs) (p : Part) → Extends r (add_ref r p)
unfolding add_ref
add_ref-Extends r (header name fb) = record {
  principal = ground arith;
  geoip = ground arith;
  headers = λ n h. ground (arith, contains_text-append_left r.headers (name ∷ []) n);
  vars = λ i h. ground arith;
}
add_ref-Extends r (custom id fb) = record {
  principal = ground arith;
  geoip = ground arith;
  headers = λ n h. ground arith;
  vars = λ i h. ground (arith, contains_id-append_left r.vars (id ∷ []) i);
}
add_ref-Extends r (var username fb) = record {
  principal = λ h. refl;
  geoip = λ h. h;
  headers = λ n h. h;
  vars = λ i h. h;
}
add_ref-Extends r (var groups fb) = record {
  principal = λ h. refl;
  geoip = λ h. h;
  headers = λ n h. h;
  vars = λ i h. h;
}
add_ref-Extends r (var country fb) = record {
  principal = λ h. h;
  geoip = λ h. refl;
  headers = λ n h. h;
  vars = λ i h. h;
}
add_ref-Extends r _ = Extends-refl r

-- Agreement on more references is agreement on fewer.
Agrees-Extends :
    {r s : TemplateRefs} (c d : RequestContext) → Extends r s → Agrees s c d → Agrees r c d
Agrees-Extends c d e a = record {
  client_ip = a.client_ip;
  method = a.method;
  path = a.path;
  query = a.query;
  path_and_query = a.path_and_query;
  host = a.host;
  scheme = a.scheme;
  client_cert_subject = a.client_cert_subject;
  client_cert_sans = a.client_cert_sans;
  username = λ h. a.username (e.principal h);
  groups = λ h. a.groups (e.principal h);
  country = λ h. a.country (e.geoip h);
  headers = λ n h. a.headers n (e.headers n h);
  vars = λ i h. a.vars i (e.vars i h);
}

pub refs_from-Extends : (r : TemplateRefs) (parts : List Part) → Extends r (refs_from r parts)
unfolding refs_from
refs_from-Extends r [] = Extends-refl r
refs_from-Extends r (p ∷ parts) =
    let first = add_ref-Extends r p in
    let rest = refs_from-Extends (add_ref r p) parts in
    record {
      principal = λ h. rest.principal (first.principal h);
      geoip = λ h. rest.geoip (first.geoip h);
      headers = λ n h. rest.headers n (first.headers n h);
      vars = λ i h. rest.vars i (first.vars i h);
    }

module _ (caps : Option (ℕ → Option Text)) (c d : RequestContext) where
  render_part-Agrees :
      (r : TemplateRefs) (p : Part)
      → Agrees (add_ref r p) c d
      → render_part c caps p ≡ render_part d caps p
  unfolding render_part add_ref known_value
  render_part-Agrees r (literal s) a = refl
  render_part-Agrees r (unknown s) a = refl
  render_part-Agrees r (capture i fb) a = refl
  render_part-Agrees r (var client_ip fb) a = ap (λ s. or_fallback s fb) a.client_ip
  render_part-Agrees r (var username fb) a = ap (λ s. or_fallback s fb) (a.username refl)
  render_part-Agrees r (var groups fb) a = ap (λ s. or_fallback s fb) (a.groups refl)
  render_part-Agrees r (var method fb) a = ap (λ s. or_fallback s fb) a.method
  render_part-Agrees r (var path fb) a = ap (λ s. or_fallback s fb) a.path
  render_part-Agrees r (var query fb) a = ap (λ s. or_fallback s fb) a.query
  render_part-Agrees r (var path_and_query fb) a = ap (λ s. or_fallback s fb) a.path_and_query
  render_part-Agrees r (var host fb) a = ap (λ s. or_fallback s fb) a.host
  render_part-Agrees r (var scheme fb) a = ap (λ s. or_fallback s fb) a.scheme
  render_part-Agrees r (var client_cert_subject fb) a =
      ap (λ s. or_fallback s fb) a.client_cert_subject
  render_part-Agrees r (var client_cert_sans fb) a = ap (λ s. or_fallback s fb) a.client_cert_sans
  render_part-Agrees r (var country fb) a = ap (λ s. or_fallback s fb) (a.country refl)
  render_part-Agrees r (header name fb) a =
      ap (λ s. or_fallback s fb)
        (a.headers name (ground (arith, contains_text-snoc r.headers name)))
  render_part-Agrees r (custom id fb) a =
      ap (λ s. or_fallback s fb) (a.vars id (ground (arith, contains_id-snoc r.vars id)))

  render_inner-Agrees :
      (r : TemplateRefs) (parts : List Part)
      → Agrees (refs_from r parts) c d
      → render_inner c caps parts ≡ render_inner d caps parts
  unfolding render_inner refs_from
  render_inner-Agrees r [] a = refl
  render_inner-Agrees r (p ∷ parts) a =
      let here =
        render_part-Agrees r p (Agrees-Extends c d (refs_from-Extends (add_ref r p) parts) a) in
      ap₂ ◌++◌ here (render_inner-Agrees (add_ref r p) parts a)

  -- Two contexts that agree on what `refs` reports, and on the fields that every request has, give
  -- the same rendering: no other field of the context reaches the text.
  pub render-refs :
      (parts : List Part)
      → Agrees (refs parts) c d
      → render_inner c caps parts ≡ render_inner d caps parts
  unfolding refs
  render-refs parts a = render_inner-Agrees no_refs parts a

refs_from-principal :
    (r : TemplateRefs) (parts : List Part)
    → (refs_from r parts).principal ≡ (r.principal || references_principal parts)
unfolding refs_from references_principal add_ref
refs_from-principal r [] = ground arith
refs_from-principal r (p ∷ parts) = ground (arith, refs_from-principal (add_ref r p) parts)

-- The two ways in which the program asks whether a template needs the user agree.
pub refs-references_principal :
    (parts : List Part) → (refs parts).principal ≡ references_principal parts
unfolding refs
refs-references_principal parts = refs_from-principal no_refs parts
