-- ===== src/Cache/Policy/Defs.antt =====
-- `CachePolicy`, its read-through, its write-through and its revalidation.
use hypershunt.Prelude.{
  ℕ, ◌-◌, Bool, true, false, not, ◌&&◌, ◌||◌, Option, none, some, List, [], ◌∷◌, ◌++◌, map, min,
  ltb, leb, ◌==◌, if◌then◌else◌, any, is_empty,
}
use hypershunt.Prelude.Text.{
  Text, codes, eq_text, split, trim, to_ascii_lowercase, parse_uint, u64_values,
}
use hypershunt.Http.{
  HeaderMaps, Response, age, authorization, content_encoding, date_name, expires, set_cookie,
  vary_name,
}
use hypershunt.Cache.Entry.{
  StoredResponse, ◌>>=◌, from_secs, as_secs, get_text, get_date, current_age, remaining_freshness,
}
use hypershunt.Cache.Control.{ResponseCacheControl, RequestCacheControl, parse_response}

-- `CachePolicy`, less its key, which src/cache/key.rs builds.
pub record CachePolicy : Type 0 where
  pub ttl : ℕ
  pub max_object_size : ℕ
  pub methods : List Text
  pub honor_client_cache_control : Bool

pub record Decision : Type 0 where
  pub lifetime : ℕ
  pub initial_age : ℕ
  pub vary : List (Text × Option Text)
  pub swr : ℕ
  pub sie : ℕ

pub data Lookup (Map : Type 0) : Type 0 where
  hit : Response Map → Lookup Map
  stale_while_revalidate : StoredResponse Map → Lookup Map
  revalidate : StoredResponse Map → Bool → Lookup Map
  miss : Lookup Map

unfoldable pub request_cacheable : CachePolicy → Text → Bool
request_cacheable policy method =
    (eq_text method (codes "GET") || eq_text method (codes "HEAD"))
    && any (λ m. eq_text m method) policy.methods

abbrev pub is_zero : ℕ → Bool
is_zero n = n == 0

-- `is_some_and`.
abbrev pub some_and : {A : Type 0} → Option A → (A → Bool) → Bool
some_and none p = false
some_and (some a) p = p a

abbrev pub secs_or_zero : Option ℕ → ℕ
secs_or_zero none = 0
secs_or_zero (some n) = from_secs n

unfoldable pub cacheable_status : ℕ → Bool
cacheable_status code =
    code == 200
    || code == 203
    || code == 204
    || code == 300
    || code == 301
    || code == 404
    || code == 410

-- `max-stale`, by the staleness.
unfoldable pub accepts_stale : RequestCacheControl → ℕ → Bool
accepts_stale rcc stale =
    not rcc.no_cache
    && some_and rcc.max_stale (λ limit. elim limit [ none ↦ true | some n ↦ leb (as_secs stale) n ])

-- A window is used where it is not zero and reaches the staleness.
abbrev pub within : ℕ → ℕ → Bool
within stale window = not (is_zero window) && leb stale window

module _ {Map : Type 0} where
  -- `rcc.max_age.is_some_and(|m| entry.current_age(now).as_secs() > m)`; the age is asked for only
  -- where there is a limit.
  unfoldable pub too_old : RequestCacheControl → StoredResponse Map → ℕ → Option Bool
  too_old rcc entry now = elim rcc.max_age [
    | none ↦ some false
    | some m ↦ current_age entry now >>= λ a. some (ltb m (as_secs a))
  ]

  unfoldable pub min_fresh_unmet : RequestCacheControl → StoredResponse Map → ℕ → Bool
  unfolding remaining_freshness
  min_fresh_unmet rcc entry now =
      some_and rcc.min_fresh (λ mf. ltb (as_secs (remaining_freshness entry now)) mf)

module _ (H : HeaderMaps) where
  open H use {Map, get, get_all, text, date}

  abbrev pub contains_key : Map → Text → Bool
  contains_key headers name = elim (get headers name) [ none ↦ false | some _ ↦ true ]

  unfoldable pub age_of : Map → ℕ
  age_of headers = secs_or_zero (get_text H headers age >>= parse_uint u64_values)

  unfoldable pub expires_minus_date : Map → Option ℕ
  expires_minus_date headers = get_date H headers date_name >>= λ d.
      get_date H headers expires >>= λ e. some (from_secs (e - d))

  -- `s-maxage`, or else `max-age`, or else `Expires` less `Date`.
  unfoldable pub origin_lifetime : ResponseCacheControl → Map → Option ℕ
  unfolding expires_minus_date
  origin_lifetime control headers = elim control.s_maxage [
    | some n ↦ some (from_secs n)
    | none ↦ elim control.max_age [
      | some n ↦ some (from_secs n)
      | none ↦ expires_minus_date headers
    ]
  ]

  unfoldable pub lifetime_from : CachePolicy → ResponseCacheControl → Map → ℕ
  unfolding origin_lifetime
  lifetime_from policy control headers = elim (origin_lifetime control headers) [
    | some o ↦ min o policy.ttl
    | none ↦ policy.ttl
  ]

  -- The names of one `Vary` value: `none` on a `*`. `header_name` is `HeaderName::from_bytes` with
  -- its error dropped.
  module _ (header_name : Text → Option Text) where
    unfoldable pub vary_tokens : List Text → Option (List Text)
    vary_tokens [] = some []
    vary_tokens (tok ∷ toks) =
        let t = trim tok in
        if eq_text t (codes "*")
        then none
        else vary_tokens toks >>= λ names. some (
            if is_empty t then names else elim (header_name (to_ascii_lowercase t)) [
              | none ↦ names
              | some name ↦ name ∷ names
            ])

    unfoldable pub vary_names : List Text → Option (List Text)
    unfolding vary_tokens
    vary_names [] = some []
    vary_names (v ∷ vs) = text v >>= λ s.
        vary_tokens (split b',' s) >>= λ names. vary_names vs >>= λ rest. some (names ++ rest)

    unfoldable pub evaluate : CachePolicy → ℕ → Map → Map → Option Decision
    unfolding vary_names lifetime_from cacheable_status age_of
    evaluate policy status resp_headers req_headers =
        let control = parse_response H resp_headers in
        if control.no_store || control.private || control.no_cache
        then none
        else if contains_key resp_headers set_cookie
        then none
        else if contains_key resp_headers content_encoding
        then none
        else vary_names (get_all resp_headers vary_name) >>= λ names.
            if contains_key req_headers authorization
              && not (control.public || some_and control.s_maxage (λ _. true))
            then none
            else if not (cacheable_status status)
            then none
            else if is_zero (lifetime_from policy control resp_headers)
            then none
            else some (record {
              lifetime = lifetime_from policy control resp_headers;
              initial_age = age_of resp_headers;
              vary = map (λ name. (name, get_text H req_headers name)) names;
              swr = secs_or_zero control.stale_while_revalidate;
              sie = secs_or_zero control.stale_if_error;
            })
