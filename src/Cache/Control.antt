-- ===== src/Cache/Control.antt =====
-- The `Cache-Control` parsers of src/cache/policy.rs, for responses and for requests.
use hypershunt.Prelude.{
  ℕ, ◌≡◌, refl, sym, subst, Bool, true, false, Option, none, some, List, [], ◌∷◌, if◌then◌else◌,
  arith, any, Bool-cases, Option-cases, inl, inr,
}
use hypershunt.Prelude.Text.{
  Text, codes, eq_text, eq_text_iff, split, split_once, trim, trim_matches, to_ascii_lowercase,
  parse_uint, u64_values,
}
use hypershunt.Http.{HeaderMaps, cache_control}
use hypershunt.Cache.Entry.{◌>>=◌}

pub record ResponseCacheControl : Type 0 where
  pub no_store : Bool
  pub private : Bool
  pub no_cache : Bool
  pub public : Bool
  pub max_age : Option ℕ
  pub s_maxage : Option ℕ
  pub stale_while_revalidate : Option ℕ
  pub stale_if_error : Option ℕ

pub record RequestCacheControl : Type 0 where
  pub no_store : Bool
  pub no_cache : Bool
  pub only_if_cached : Bool
  pub max_age : Option ℕ
  pub min_fresh : Option ℕ
  pub max_stale : Option (Option ℕ)

abbrev pub default_response : ResponseCacheControl
default_response = record {
  no_store = false;
  private = false;
  no_cache = false;
  public = false;
  max_age = none;
  s_maxage = none;
  stale_while_revalidate = none;
  stale_if_error = none;
}

abbrev pub default_request : RequestCacheControl
default_request = record {
  no_store = false;
  no_cache = false;
  only_if_cached = false;
  max_age = none;
  min_fresh = none;
  max_stale = none;
}

unfoldable pub parse_secs : Text → Option ℕ
parse_secs arg = parse_uint u64_values (trim_matches b'"' arg)

-- The name and the argument of one directive.
unfoldable pub split_directive : Text → Text × Option Text
split_directive directive = elim (split_once b'=' (trim directive)) [
  | none ↦ (trim directive, none)
  | some (n, a) ↦ (trim n, some (trim a))
]

abbrev pub directive_name : Text → Text
directive_name directive = to_ascii_lowercase (split_directive directive).0

-- One arm of the match on the directive's lower-case name.
unfoldable pub response_directive : ResponseCacheControl → Text → Option Text → ResponseCacheControl
response_directive cc name arg =
    if eq_text name (codes "no-store")
    then record cc { no_store = true }
    else if eq_text name (codes "private")
    then record cc { private = true }
    else if eq_text name (codes "no-cache")
    then record cc { no_cache = true }
    else if eq_text name (codes "public")
    then record cc { public = true }
    else if eq_text name (codes "max-age")
    then record cc { max_age = arg >>= parse_secs }
    else if eq_text name (codes "s-maxage")
    then record cc { s_maxage = arg >>= parse_secs }
    else if eq_text name (codes "stale-while-revalidate")
    then record cc { stale_while_revalidate = arg >>= parse_secs }
    else if eq_text name (codes "stale-if-error")
    then record cc { stale_if_error = arg >>= parse_secs }
    else cc

unfoldable pub request_directive : RequestCacheControl → Text → Option Text → RequestCacheControl
request_directive cc name arg =
    if eq_text name (codes "no-store")
    then record cc { no_store = true }
    else if eq_text name (codes "no-cache")
    then record cc { no_cache = true }
    else if eq_text name (codes "only-if-cached")
    then record cc { only_if_cached = true }
    else if eq_text name (codes "max-age")
    then record cc { max_age = arg >>= parse_secs }
    else if eq_text name (codes "min-fresh")
    then record cc { min_fresh = arg >>= parse_secs }
    else if eq_text name (codes "max-stale")
    then record cc { max_stale = some (arg >>= parse_secs) }
    else cc

-- The two loops, over the header's values and over the directives of each, for either parser.
module _ {C : Type 0} (step : C → Text → Option Text → C) where
  unfoldable pub fold_directives : C → List Text → C
  fold_directives cc [] = cc
  fold_directives cc (d ∷ ds) =
      fold_directives (step cc (directive_name d) (split_directive d).1) ds

  unfoldable pub fold_values : (Text → Option Text) → C → List Text → C
  unfolding fold_directives
  fold_values text cc [] = cc
  fold_values text cc (value ∷ values) = elim (text value) [
    | none ↦ fold_values text cc values
    | some s ↦ fold_values text (fold_directives cc (split b',' s)) values
  ]

module _ (H : HeaderMaps) where
  open H use {Map, get_all, text}

  unfoldable pub parse_response : Map → ResponseCacheControl
  unfolding fold_values response_directive
  parse_response headers =
      fold_values response_directive text default_response (get_all headers cache_control)

  unfoldable pub parse_request : Map → RequestCacheControl
  unfolding fold_values request_directive
  parse_request headers =
      fold_values request_directive text default_request (get_all headers cache_control)

-- Whether one of the header's values has a directive of the given name. A value that is no text
-- declares nothing: the source passes it over.
abbrev pub value_declares : (Text → Option Text) → Text → Text → Bool
value_declares text name value = elim (text value) [
  | none ↦ false
  | some s ↦ any (λ d. eq_text (directive_name d) name) (split b',' s)
]

abbrev pub declares : (H : HeaderMaps) → H.Map → Text → Bool
declares H headers name = any (value_declares H.text name) (H.get_all headers cache_control)

-- A flag that one directive sets and that no directive clears stands at the end of the two loops
-- once a directive of that name has come.
module _ {C : Type 0} (step : C → Text → Option Text → C) (flag : C → Bool) (wanted : Text)
    (keeps : (cc : C) (n : Text) (a : Option Text) → flag cc ≡ true → flag (step cc n a) ≡ true)
    (sets : (cc : C) (n : Text) (a : Option Text)
      → eq_text n wanted ≡ true
      → flag (step cc n a) ≡ true) where
  fold_directives-keeps :
      (cc : C) (ds : List Text) → flag cc ≡ true → flag (fold_directives step cc ds) ≡ true
  unfolding fold_directives
  fold_directives-keeps cc [] h = h
  fold_directives-keeps cc (d ∷ ds) h =
      fold_directives-keeps (step cc (directive_name d) (split_directive d).1) ds
        (keeps cc (directive_name d) (split_directive d).1 h)

  fold_directives-sets :
      (cc : C) (ds : List Text)
      → any (λ d. eq_text (directive_name d) wanted) ds ≡ true
      → flag (fold_directives step cc ds) ≡ true
  unfolding fold_directives
  fold_directives-sets cc [] h = absurd (ground arith)
  fold_directives-sets cc (d ∷ ds) h =
      let next = step cc (directive_name d) (split_directive d).1 in
      elim (Bool-cases (eq_text (directive_name d) wanted)) [
        | inl e ↦ fold_directives-keeps next ds (sets cc (directive_name d) (split_directive d).1 e)
        | inr e ↦ fold_directives-sets next ds (ground arith)
      ]

  fold_values-keeps :
      (text : Text → Option Text) (cc : C) (values : List Text)
      → flag cc ≡ true
      → flag (fold_values step text cc values) ≡ true
  unfolding fold_values
  fold_values-keeps text cc [] h = h
  fold_values-keeps text cc (v ∷ values) h = elim (Option-cases (text v)) [
    | inl e ↦ rw (e, fold_values) (fold_values-keeps text cc values h)
    | inr (s, e) ↦
        rw (e, fold_values)
          (fold_values-keeps text (fold_directives step cc (split b',' s)) values
            (fold_directives-keeps cc (split b',' s) h))
  ]

  pub fold_values-sets :
      (text : Text → Option Text) (cc : C) (values : List Text)
      → any (value_declares text wanted) values ≡ true
      → flag (fold_values step text cc values) ≡ true
  unfolding fold_values
  fold_values-sets text cc [] h = absurd (ground arith)
  fold_values-sets text cc (v ∷ values) h = elim (Option-cases (text v)) [
    | inl e ↦ rw (e, fold_values) (fold_values-sets text cc values (ground arith))
    | inr (s, e) ↦
        let ds = split b',' s in
        elim (Bool-cases (any (λ d. eq_text (directive_name d) wanted) ds)) [
          | inl f ↦
              rw (e, fold_values)
                (fold_values-keeps text (fold_directives step cc ds) values
                  (fold_directives-sets cc ds f))
          | inr f ↦
              rw (e, fold_values)
                (fold_values-sets text (fold_directives step cc ds) values (ground arith))
        ]
  ]

-- If one of a response's `Cache-Control` values declares `no-store`, `private` or `no-cache`, that
-- flag is set, whatever else the values say and in whichever order.
pub parse_response-flags :
    (H : HeaderMaps) (headers : H.Map)
    → (declares H headers (codes "no-store") ≡ true → (parse_response H headers).no_store ≡ true)
      × (declares H headers (codes "private") ≡ true → (parse_response H headers).private ≡ true)
      × (declares H headers (codes "no-cache") ≡ true → (parse_response H headers).no_cache ≡ true)
unfolding parse_response response_directive eq_text
parse_response-flags H headers = (
  (λ h.
      fold_values-sets response_directive (λ cc. cc.no_store) (codes "no-store")
        (λ cc n a h'. ground arith) (λ cc n a e. rw e refl) H.text default_response
        (H.get_all headers cache_control) h),
  (λ h.
      fold_values-sets response_directive (λ cc. cc.private) (codes "private")
        (λ cc n a h'. ground arith)
        (λ cc n a e.
          subst (λ n'. (response_directive cc n' a).private ≡ true)
            (sym ((eq_text_iff n (codes "private")).0 e)) refl)
        H.text default_response (H.get_all headers cache_control) h),
  (λ h.
      fold_values-sets response_directive (λ cc. cc.no_cache) (codes "no-cache")
        (λ cc n a h'. ground arith)
        (λ cc n a e.
          subst (λ n'. (response_directive cc n' a).no_cache ≡ true)
            (sym ((eq_text_iff n (codes "no-cache")).0 e)) refl)
        H.text default_response (H.get_all headers cache_control) h),
)
