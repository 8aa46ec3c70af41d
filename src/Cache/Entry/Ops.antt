-- ===== src/Cache/Entry/Ops.antt =====
-- The record and the methods of `StoredResponse`, and their helpers.
use hypershunt.Prelude.{
  ℕ, ◌+◌, ◌-◌, ◌*◌, ◌/◌, Bool, true, false, Option, none, some, List, [], ◌∷◌, ◌++◌, length, any,
  all, ltb, leb, if◌then◌else◌,
}
use hypershunt.Prelude.Text.{Text, codes, eq_text, contains_text, strip_prefix, split, trim}
use hypershunt.Prelude.Decimal.{to_string}
use hypershunt.Http.{
  HeaderMaps, Response, age, cache_control, content_length, date_name, etag_name, expires,
  if_modified_since, if_none_match, last_modified_name, vary_name,
}

infixl 5 ◌>>=◌
abbrev pub ◌>>=◌ {ℓ κ} : {A : Type ℓ} {B : Type κ} → Option A → (A → Option B) → Option B
none >>= f = none
some a >>= f = f a

abbrev pub nanos_per_sec : ℕ
nanos_per_sec = 1_000_000_000

-- `Duration::from_secs` and `as_secs`.
abbrev pub from_secs : ℕ → ℕ
from_secs n = n * nanos_per_sec

abbrev pub as_secs : ℕ → ℕ
as_secs d = d / nanos_per_sec

-- The durations are below 2^64 seconds; `+` panics at that bound.
abbrev pub duration_values : ℕ
duration_values = 18_446_744_073_709_551_616_000_000_000

unfoldable pub add_duration : ℕ → ℕ → Option ℕ
add_duration a b = if ltb (a + b) duration_values then some (a + b) else none

abbrev pub skip_on_store : List Text
skip_on_store =
    codes "connection"
    ∷ codes "keep-alive"
    ∷ codes "proxy-authenticate"
    ∷ codes "proxy-authorization"
    ∷ codes "te"
    ∷ codes "trailers"
    ∷ codes "transfer-encoding"
    ∷ codes "upgrade"
    ∷ codes "age"
    ∷ []

pub record StoredResponse (Map : Type 0) : Type 0 where
  pub status : ℕ
  pub headers : Map
  pub body : Text
  pub stored_at : ℕ
  pub freshness_lifetime : ℕ
  pub initial_age : ℕ
  pub etag : Option Text
  pub last_modified : Option ℕ
  pub vary : List (Text × Option Text)
  pub swr : ℕ
  pub sie : ℕ
  pub size : ℕ

module _ {Map : Type 0} where
  unfoldable pub with_stale_windows : StoredResponse Map → ℕ → ℕ → StoredResponse Map
  with_stale_windows r swr sie = record r { swr = swr; sie = sie }

  -- `saturating_duration_since` is `-` on numbers, and so is `saturating_sub`.
  unfoldable pub is_fresh : StoredResponse Map → ℕ → Bool
  is_fresh r now = ltb (now - r.stored_at) r.freshness_lifetime

  unfoldable pub current_age : StoredResponse Map → ℕ → Option ℕ
  unfolding add_duration
  current_age r now = add_duration r.initial_age (now - r.stored_at)

  unfoldable pub remaining_freshness : StoredResponse Map → ℕ → ℕ
  remaining_freshness r now = r.freshness_lifetime - (now - r.stored_at)

  unfoldable pub staleness : StoredResponse Map → ℕ → ℕ
  staleness r now = now - r.stored_at - r.freshness_lifetime

  unfoldable pub has_validators : StoredResponse Map → Bool
  has_validators r = elim r.etag [
    | some _ ↦ true
    | none ↦ elim r.last_modified [ some _ ↦ true | none ↦ false ]
  ]

-- A leading `W/` is dropped.
unfoldable pub strip_weak : Text → Text
strip_weak tag = elim (strip_prefix (codes "W/") tag) [ some rest ↦ rest | none ↦ tag ]

unfoldable pub if_none_match_hits : Text → Option Text → Bool
unfolding strip_weak
if_none_match_hits inm etag =
    if eq_text (trim inm) (codes "*")
    then elim etag [ some _ ↦ true | none ↦ false ]
    else elim etag [
      | none ↦ false
      | some tag ↦ any (λ t. eq_text (strip_weak (trim t)) (strip_weak tag)) (split b',' (trim inm))
    ]

abbrev pub eq_value : Option Text → Option Text → Bool
eq_value none none = true
eq_value none (some _) = false
eq_value (some _) none = false
eq_value (some s) (some t) = eq_text s t

module _ (H : HeaderMaps) where
  open H use {Map, empty, get, get_all, entries, insert, append, remove, text, valid_value, date}

  -- `headers.get(name).and_then(|v| v.to_str().ok())`.
  abbrev pub get_text : Map → Text → Option Text
  get_text headers name = get headers name >>= text

  abbrev pub get_date : Map → Text → Option ℕ
  get_date headers name = get_text headers name >>= date

  -- The loop of `new`, which drops the connection's headers.
  unfoldable pub keep_headers : Map → List (Text × Text) → Map
  keep_headers kept [] = kept
  keep_headers kept ((name, value) ∷ rest) =
      keep_headers (if contains_text skip_on_store name then kept else append kept name value) rest

  unfoldable pub new_stored :
      ℕ → Map → Text → ℕ → ℕ → List (Text × Option Text) → ℕ → StoredResponse Map
  unfolding keep_headers
  new_stored status src_headers body freshness_lifetime initial_age vary stored_at =
      let headers = keep_headers empty (entries src_headers) in
      record {
        status = status;
        headers = headers;
        body = body;
        stored_at = stored_at;
        freshness_lifetime = freshness_lifetime;
        initial_age = initial_age;
        etag = get_text headers etag_name;
        last_modified = get_date headers last_modified_name;
        vary = vary;
        swr = 0;
        sie = 0;
        size = length body;
      }

  unfoldable pub vary_matches : StoredResponse Map → Map → Bool
  vary_matches r req_headers = all (λ p. eq_value (get_text req_headers p.0) p.1) r.vary

  unfoldable pub not_modified_since : Option ℕ → Option ℕ → Bool
  not_modified_since none ims = false
  not_modified_since (some stored) none = false
  not_modified_since (some stored) (some ims) = leb stored ims

  unfoldable pub client_not_modified : StoredResponse Map → Map → Bool
  unfolding if_none_match_hits not_modified_since
  client_not_modified r req_headers = elim (get_text req_headers if_none_match) [
    | some inm ↦ if_none_match_hits inm r.etag
    | none ↦ not_modified_since r.last_modified (get_date req_headers if_modified_since)
  ]

  unfoldable pub set_age : Map → ℕ → Map
  set_age headers d =
      if valid_value (to_string (as_secs d))
      then insert headers age (to_string (as_secs d))
      else headers

  unfoldable pub to_response : StoredResponse Map → ℕ → Option (Response Map)
  unfolding set_age current_age
  to_response r now = current_age r now >>= λ d.
      some (record { status = r.status; headers = set_age r.headers d; body = some r.body })

  -- The validators and the cache control that a 304 repeats.
  unfoldable pub copy_headers : (Map → Text → Text → Map) → Map → Map → List Text → Map
  copy_headers write from to [] = to
  copy_headers write from to (name ∷ names) =
      copy_headers write from (elim (get from name) [ none ↦ to | some v ↦ write to name v ]) names

  unfoldable pub not_modified_response : StoredResponse Map → ℕ → Option (Response Map)
  unfolding set_age copy_headers current_age
  not_modified_response r now =
      let copied =
        copy_headers append r.headers empty (etag_name ∷ last_modified_name ∷ cache_control ∷ []) in
      current_age r now >>= λ d.
      some (record {
        status = 304;
        headers = remove (set_age copied d) content_length;
        body = some [];
      })

  -- `httpdate::fmt_http_date` is the argument `fmt_date`.
  unfoldable pub revalidation_headers : (ℕ → Text) → StoredResponse Map → List (Text × Text)
  revalidation_headers fmt_date r =
      elim r.etag [
        | some tag ↦ if valid_value tag then (if_none_match, tag) ∷ [] else []
        | none ↦ []
      ]
      ++ elim r.last_modified [
        | some lm ↦ if valid_value (fmt_date lm) then (if_modified_since, fmt_date lm) ∷ [] else []
        | none ↦ []
      ]

  unfoldable pub refreshed : StoredResponse Map → Map → ℕ → ℕ → ℕ → StoredResponse Map
  unfolding copy_headers
  refreshed r update lifetime initial_age now =
      let headers =
        copy_headers insert update r.headers
          (cache_control ∷ date_name ∷ expires ∷ etag_name ∷ last_modified_name ∷ vary_name ∷ []) in
      record r {
        headers = headers;
        stored_at = now;
        freshness_lifetime = lifetime;
        initial_age = initial_age;
        etag = get_text headers etag_name;
        last_modified = get_date headers last_modified_name;
      }
