-- ===== src/Vars/Enough.antt =====
-- Which needs are enough: those under which src/vars.rs computes one value for two requests.
use hypershunt.Prelude.{
  ℕ, zero, suc, ◌≡◌, refl, ap, subst, ◌∙◌, true, none, some, List, [], ◌∷◌, get_elem?, All,
  Option-cases, inl, inr,
}
use hypershunt.Prelude.Text.{Text, contains_text}
use hypershunt.Headers.{Part, RequestContext, header_value}
use hypershunt.Headers.Refs.{TemplateRefs, refs, Agrees, render-refs}
use hypershunt.Headers.Render.{render_inner}
use hypershunt.Vars.Defs.{
  RegexOps, Arm, VarBody, const, matching, VarDef, VarTable, add_ids, add_deps, arm_values,
  templates, body_deps, deps_of,
}
use hypershunt.Vars.Values.{eval_arms, eval_body, value}
use hypershunt.Vars.Needs.{VarNeeds, no_needs, take_templates, direct_needs}
use hypershunt.Vars.Coverage.{Sub, Covers, take_templates-Covers}
use hypershunt.Vars.Rendering.{Each, add_deps-first}

-- Two contexts agree on the needs, and on the fields that every request has.
pub record AgreesOn (nd : VarNeeds) (c d : RequestContext) : Type 0 where
  pub client_ip : c.client_ip ≡ d.client_ip
  pub username : nd.principal ≡ true → c.username ≡ d.username
  pub groups : nd.principal ≡ true → c.groups ≡ d.groups
  pub method : c.method ≡ d.method
  pub path : c.path ≡ d.path
  pub query : c.query ≡ d.query
  pub path_and_query : c.path_and_query ≡ d.path_and_query
  pub host : c.host ≡ d.host
  pub scheme : c.scheme ≡ d.scheme
  pub client_cert_subject : c.client_cert_subject ≡ d.client_cert_subject
  pub client_cert_sans : c.client_cert_sans ≡ d.client_cert_sans
  pub country : nd.geoip ≡ true → c.country ≡ d.country
  pub headers : (n : Text) → contains_text nd.headers n ≡ true → header_value c n ≡ header_value d n

pub AgreesOn-Sub :
    {a b : VarNeeds} (c d : RequestContext) → Sub a b → AgreesOn b c d → AgreesOn a c d
AgreesOn-Sub c d s h = record {
  client_ip = h.client_ip;
  username = λ e. h.username (s.principal e);
  groups = λ e. h.groups (s.principal e);
  method = h.method;
  path = h.path;
  query = h.query;
  path_and_query = h.path_and_query;
  host = h.host;
  scheme = h.scheme;
  client_cert_subject = h.client_cert_subject;
  client_cert_sans = h.client_cert_sans;
  country = λ e. h.country (s.geoip e);
  headers = λ n e. h.headers n (s.headers n e);
}

pub AgreesOn-Agrees :
    (nd : VarNeeds) (c d : RequestContext) (v w : ℕ → Text) (r : TemplateRefs)
    → Covers r nd
    → AgreesOn nd c d
    → Each (λ i. v i ≡ w i) r.vars
    → Agrees r (record c { vars = v }) (record d { vars = w })
unfolding header_value
AgreesOn-Agrees nd c d v w r s h k = record {
  client_ip = h.client_ip;
  username = λ e. h.username (s.principal e);
  groups = λ e. h.groups (s.principal e);
  method = h.method;
  path = h.path;
  query = h.query;
  path_and_query = h.path_and_query;
  host = h.host;
  scheme = h.scheme;
  client_cert_subject = h.client_cert_subject;
  client_cert_sans = h.client_cert_sans;
  country = λ e. h.country (s.geoip e);
  headers = λ n e. h.headers n (s.headers n e);
  vars = k;
}

add_deps-All :
    (P : ℕ → Type 0) (ids : List ℕ) (ts : List (List Part))
    → Each P (add_deps ids ts)
    → All (λ t. Each P (refs t).vars) ts
add_deps-All P ids [] h = tt
add_deps-All P ids (t ∷ ts) h = (
  add_deps-first P ids t ts h,
  add_deps-All P (add_ids ids (refs t).vars) ts (unfold add_deps in h),
)

All-Agrees :
    (nd : VarNeeds) (c d : RequestContext) (v w : ℕ → Text) (ts : List (List Part))
    → AgreesOn nd c d
    → All (λ t. Covers (refs t) nd) ts
    → All (λ t. Each (λ i. v i ≡ w i) (refs t).vars) ts
    → All (λ t. Agrees (refs t) (record c { vars = v }) (record d { vars = w })) ts
All-Agrees nd c d v w [] h k l = tt
All-Agrees nd c d v w (t ∷ ts) h (k, ks) (l, ls) =
    (AgreesOn-Agrees nd c d v w (refs t) k h l, All-Agrees nd c d v w ts h ks ls)

module _ {Regex : Type 0} (R : RegexOps Regex) (c d : RequestContext) where
  eval_arms-Agrees :
      (input : Text) (arms : List (Arm Regex))
      → All (λ t. Agrees (refs t) c d) (arm_values arms)
      → eval_arms R c input arms ≡ eval_arms R d input arms
  unfolding eval_arms arm_values
  eval_arms-Agrees input [] h = refl
  eval_arms-Agrees input (arm ∷ arms) (h, hs) = elim (Option-cases arm.regex) [
    | inl e ↦ rw e (render-refs none c d arm.value h)
    | inr (re, e) ↦ elim (Option-cases (R.captures re input)) [
      | inr (caps, k) ↦ rw (e, k) (render-refs (some caps) c d arm.value h)
      | inl k ↦ rw (e, k) (eval_arms-Agrees input arms hs)
    ]
  ]

  eval_body-Agrees :
      (body : VarBody Regex)
      → All (λ t. Agrees (refs t) c d) (templates body)
      → eval_body R c body ≡ eval_body R d body
  unfolding eval_body templates
  eval_body-Agrees (const t) (h, hs) = render-refs none c d t h
  eval_body-Agrees (matching input arms) (h, hs) =
      ap (λ i. eval_arms R c i arms) (render-refs none c d input h)
      ∙ eval_arms-Agrees (render_inner d none input) arms hs

module _ {Regex : Type 0} (R : RegexOps Regex) (table : VarTable Regex) where
  -- The value depends on no more than the needs.
  abbrev pub Safe : VarNeeds → ℕ → Type 0
  Safe nd i =
      (fuel : ℕ) (c d : RequestContext)
      → AgreesOn nd c d
      → value R table fuel c i ≡ value R table fuel d i

  direct_needs-some :
      (i : ℕ) (def : VarDef Regex)
      → get_elem? table.defs i ≡ some def
      → direct_needs table i ≡ take_templates no_needs (templates def.body)
  unfolding direct_needs
  direct_needs-some i def e = rw (e, direct_needs) refl

  deps_of-some :
      (i : ℕ) (def : VarDef Regex)
      → get_elem? table.defs i ≡ some def
      → deps_of table i ≡ add_deps [] (templates def.body)
  unfolding deps_of body_deps
  deps_of-some i def e = rw (e, deps_of) refl

  pub Safe-body :
      (nd : VarNeeds) (i : ℕ)
      → Sub (direct_needs table i) nd
      → Each (λ j. (sub : VarNeeds) × Safe sub j × Sub sub nd) (deps_of table i)
      → Safe nd i
  unfolding value
  Safe-body nd i s deps zero c d h = refl
  Safe-body nd i s deps (suc fuel) c d h = elim (Option-cases (get_elem? table.defs i)) [
    | inl e ↦ rw (e, value) refl
    | inr (def, e) ↦
        let v = value R table fuel c in
        let w = value R table fuel d in
        let same : Each (λ j. v j ≡ w j) (deps_of table i) =
          λ j k. let (sub, safe, below) = deps j k in safe fuel c d (AgreesOn-Sub c d below h) in
        let ts = templates def.body in
        let vars =
          add_deps-All (λ j. v j ≡ w j) [] ts
            (subst (Each (λ j. v j ≡ w j)) (deps_of-some i def e) same) in
        let covers : All (λ t. Covers (refs t) (take_templates no_needs ts)) ts =
          (take_templates-Covers no_needs ts).1 in
        let below : Sub (take_templates no_needs ts) nd =
          subst (λ x. Sub x nd) (direct_needs-some i def e) s in
        rw (e, value)
          (eval_body-Agrees R (record c { vars = v }) (record d { vars = w }) def.body
            (All-Agrees (take_templates no_needs ts) c d v w ts (AgreesOn-Sub c d below h) covers
              vars))
  ]
