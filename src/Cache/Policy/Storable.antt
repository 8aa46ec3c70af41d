-- ===== src/Cache/Policy/Storable.antt =====
-- `evaluate` and `lifetime_from` of src/cache/policy.rs: what a decision to store guarantees.
use hypershunt.Prelude.{
  ℕ, ◌≤◌, ◌<◌, ◌≡◌, refl, subst, Bool, true, false, ◌||◌, Option, none, some, List, [], ◌∷◌, arith,
  Option-cases, inl, inr, all, map,
}
use hypershunt.Prelude.Text.{Text, codes, eq_text_refl}
use hypershunt.Http.{HeaderMaps, authorization, content_encoding, set_cookie, vary_name}
use hypershunt.Cache.Entry.{get_text, eq_value}
use hypershunt.Cache.Control.{ResponseCacheControl, parse_response, declares, parse_response-flags}
use hypershunt.Cache.Policy.{
  CachePolicy, Decision, evaluate, lifetime_from, origin_lifetime, cacheable_status, contains_key,
  some_and, vary_names,
}

-- A response that may be stored for a request, with the decision on it.
pub record IsStorable (H : HeaderMaps) (policy : CachePolicy) (status : ℕ)
    (resp_headers req_headers : H.Map) (d : Decision) : Type 0 where
  pub no_store : declares H resp_headers (codes "no-store") ≡ false
  pub private : declares H resp_headers (codes "private") ≡ false
  pub no_cache : declares H resp_headers (codes "no-cache") ≡ false
  pub cookie : contains_key H resp_headers set_cookie ≡ false
  pub encoding : contains_key H resp_headers content_encoding ≡ false
  pub authorized :
      contains_key H req_headers authorization ≡ true
      → (parse_response H resp_headers).public
          || some_and (parse_response H resp_headers).s_maxage (λ _. true)
        ≡ true
  pub status_ok : cacheable_status status ≡ true
  pub positive : 0 < d.lifetime
  pub capped : d.lifetime ≤ policy.ttl

-- The lifetime is at most the configured one, and at most the one that the origin declares, where
-- it declares one.
pub lifetime_from_bounds :
    (H : HeaderMaps) (policy : CachePolicy) (control : ResponseCacheControl) (headers : H.Map)
    → (lifetime_from H policy control headers ≤ policy.ttl)
      × ((o : ℕ)
          → origin_lifetime H control headers ≡ some o
          → lifetime_from H policy control headers ≤ o)
unfolding lifetime_from
lifetime_from_bounds H policy control headers =
    elim (Option-cases (origin_lifetime H control headers)) [
      | inl e ↦ (ground arith, λ o h. absurd (ground arith))
      | inr (o', e) ↦ (ground arith, λ o h. ground arith)
    ]

abbrev pub selects : (H : HeaderMaps) → H.Map → List (Text × Option Text) → Bool
selects H req_headers vary = all (λ p. eq_value (get_text H req_headers p.0) p.1) vary

eq_value_refl : (v : Option Text) → eq_value v v ≡ true
eq_value_refl none = refl
eq_value_refl (some s) = eq_text_refl s

selects_own :
    (H : HeaderMaps) (req_headers : H.Map) (names : List Text)
    → selects H req_headers (map (λ name. (name, get_text H req_headers name)) names) ≡ true
selects_own H req_headers [] = refl
selects_own H req_headers (n ∷ names) =
    rw (eq_value_refl (get_text H req_headers n)) (selects_own H req_headers names)

module _ (H : HeaderMaps) (header_name : Text → Option Text) where
  -- A response is decided to be stored only if no `Cache-Control` value of it declares `no-store`,
  -- `private` or `no-cache`, it sets no cookie, has no content encoding and a cacheable status, and,
  -- for a request with credentials, the origin says `public` or `s-maxage`. Its lifetime is then
  -- positive and at most the configured one.
  pub evaluate-IsStorable :
      (policy : CachePolicy) (status : ℕ) (resp_headers req_headers : H.Map) (d : Decision)
      → evaluate H header_name policy status resp_headers req_headers ≡ some d
      → IsStorable H policy status resp_headers req_headers d
  unfolding evaluate
  evaluate-IsStorable policy status resp_headers req_headers d h =
      let (fs, fp, fc) = parse_response-flags H resp_headers in
      let bounds = lifetime_from_bounds H policy (parse_response H resp_headers) resp_headers in
      let cap = bounds.0 in
      elim (Option-cases (vary_names H header_name (H.get_all resp_headers vary_name))) [
        | inl n ↦ absurd (ground arith)
        | inr (names, n) ↦ record {
          no_store = ground (arith, fs);
          private = ground (arith, fp);
          no_cache = ground (arith, fc);
          cookie = ground arith;
          encoding = ground arith;
          authorized = λ a. ground arith;
          status_ok = ground arith;
          positive = ground arith;
          capped = ground arith;
        }
      ]

  -- A decision keeps, for each name that the response varies by, the value that the request has: the
  -- entry that is stored for a request matches that request.
  pub evaluate-selects :
      (policy : CachePolicy) (status : ℕ) (resp_headers req_headers : H.Map) (d : Decision)
      → evaluate H header_name policy status resp_headers req_headers ≡ some d
      → selects H req_headers d.vary ≡ true
  unfolding evaluate
  evaluate-selects policy status resp_headers req_headers d h =
      elim (Option-cases (vary_names H header_name (H.get_all resp_headers vary_name))) [
        | inl n ↦ absurd (ground arith)
        | inr (names, n) ↦
            let own : map (λ name. (name, get_text H req_headers name)) names ≡ d.vary =
              ground arith in
            subst (λ v. selects H req_headers v ≡ true) own (selects_own H req_headers names)
      ]
