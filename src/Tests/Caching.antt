-- ===== src/Tests/Caching.antt =====
-- src/cache/policy.rs and its parts on a response that may be stored for a minute.
use hypershunt.Prelude.{
  ℕ, ◌+◌, ◌≤◌, ◌<◌, ◌≡◌, ◌≢◌, refl, true, false, Option, none, some, [], ◌∷◌, length, arith,
}
use hypershunt.Prelude.Text.{
  Text, codes, eq_text, split, split_once, trim, trim_start, trim_matches, trim_start_matches,
  to_ascii_lowercase, parse_uint, parse_digits,
}
use hypershunt.Http.{Response, cache_control, content_length}
use hypershunt.Cache.Entry.{StoredResponse, vary_matches, is_fresh, staleness, duration_values}
use hypershunt.Cache.Control.{
  default_request, parse_response, fold_values, fold_directives, response_directive,
  split_directive, parse_secs,
}
use hypershunt.Cache.Store.{Lru, CacheStore, new_store, store_get}
use hypershunt.Cache.Store.Bytes.{IsValid, new_store-IsValid}
use hypershunt.Cache.Store.Assoc as Assoc
use hypershunt.Cache.Policy.{
  CachePolicy, Decision, hit, stale_while_revalidate, lookup_entry, lookup_stale, too_old,
  min_fresh_unmet, accepts_stale, evaluate, fits, stored_as, maybe_store, lookup, serve_fresh, size,
  vary_names, lifetime_from, origin_lifetime, cacheable_status, age_of,
}
use hypershunt.Cache.Policy.Serving.{Answers, elapsed, lookup-Answers, lookup_total}
use hypershunt.Cache.Policy.Storable.{IsStorable, evaluate-IsStorable}
use hypershunt.Cache.Policy.Writing.{maybe_store-lookup}
use hypershunt.Tests.Fixtures.{Headers, header_maps, list_lru, values, first}

abbrev lru : Lru (StoredResponse Headers)
lru = list_lru (StoredResponse Headers)

abbrev header_name : Text → Option Text
header_name name = some name

abbrev policy : CachePolicy
policy = record {
  ttl = 60_000_000_000;
  max_object_size = 100;
  methods = codes "GET" ∷ [];
  honor_client_cache_control = false;
}

abbrev declared : Headers
declared = (cache_control, codes "max-age=90, public") ∷ (content_length, codes "2") ∷ []

abbrev resp : Response Headers
resp = record { status = 200; headers = declared; body = some (codes "hi") }

abbrev decision : Decision
decision = record { lifetime = 60_000_000_000; initial_age = 0; vary = []; swr = 0; sie = 0 }

-- The configured lifetime caps the declared one.
evaluate-declared : evaluate header_maps header_name policy 200 declared [] ≡ some decision
unfolding evaluate first values eq_text parse_response fold_values fold_directives
    response_directive split_directive split split_once trim trim_start trim_matches
    trim_start_matches to_ascii_lowercase parse_secs parse_uint parse_digits vary_names
    lifetime_from origin_lifetime cacheable_status age_of
evaluate-declared = refl

fits-declared : fits header_maps policy declared ≡ true
unfolding fits first eq_text parse_uint parse_digits
fits-declared = refl

evaluate-IsStorable_example : IsStorable header_maps policy 200 declared [] decision
evaluate-IsStorable_example =
    evaluate-IsStorable header_maps header_name policy 200 declared [] decision evaluate-declared

abbrev empty_store : CacheStore lru.Map
empty_store = new_store size lru 1_000

empty_store-IsValid : IsValid size lru empty_store
empty_store-IsValid = new_store-IsValid size lru 1_000 (omega arith)

small : length (codes "hi") ≤ empty_store.max_bytes
unfolding new_store
small = omega arith

abbrev after : CacheStore lru.Map
after = (maybe_store header_maps lru header_name policy empty_store 0 (codes "k") [] resp 1_000).1.0

maybe_store-lookup_example :
    (r : Response Headers) × (serve_fresh header_maps
        (stored_as header_maps decision 200 declared (codes "hi") 1_000)
        []
        2_000
      ≡ some r)
    × (lookup header_maps lru after (codes "k") [] 2_000 default_request
        ≡ some (hit r, (store_get size lru after (codes "k")).1))
maybe_store-lookup_example =
    maybe_store-lookup header_maps header_name lru policy empty_store 0 (codes "k") [] resp decision
      (codes "hi") 1_000 2_000 empty_store-IsValid evaluate-declared fits-declared refl small
      (omega arith) (omega arith)

abbrev entry : StoredResponse Headers
entry = record {
  status = 200;
  headers = declared;
  body = codes "hi";
  stored_at = 1_000;
  freshness_lifetime = 5_000_000_000;
  initial_age = 0;
  etag = none;
  last_modified = none;
  vary = [];
  swr = 0;
  sie = 0;
  size = 2;
}

abbrev holding : CacheStore lru.Map
holding = record {
  map = (codes "k", entry) ∷ [];
  bytes = 2;
  max_bytes = 1_000;
  inflight = [];
  cache_evictions = 0;
  cache_stores = 1;
}

-- Five seconds fresh, and ten more that it may be served stale with a refresh.
abbrev lenient_entry : StoredResponse Headers
lenient_entry = record entry { swr = 10_000_000_000 }

abbrev stale_holding : CacheStore lru.Map
stale_holding = record holding { map = (codes "k", lenient_entry) ∷ [] }

-- Two seconds after its lifetime.
abbrev late : ℕ
late = 7_000_001_000

lookup-stale :
    lookup header_maps lru stale_holding (codes "k") [] late default_request
    ≡ some (stale_while_revalidate lenient_entry, stale_holding)
unfolding lookup lookup_entry lookup_stale store_get Assoc.lookup Assoc.erase eq_text vary_matches
    too_old is_fresh staleness min_fresh_unmet accepts_stale
lookup-stale = refl

lookup-Answers_example :
    Answers header_maps default_request [] late lru
      (Assoc.lookup (codes "k") stale_holding.map)
      (stale_while_revalidate lenient_entry)
lookup-Answers_example =
    lookup-Answers header_maps default_request [] late lru stale_holding (codes "k")
      (stale_while_revalidate lenient_entry) stale_holding lookup-stale

held_young :
    (e : StoredResponse Headers)
    → Assoc.lookup (codes "k") holding.map ≡ some e
    → e.initial_age + elapsed e 2_000 < duration_values
unfolding Assoc.lookup eq_text
held_young e h = ground arith

lookup_total_example : lookup header_maps lru holding (codes "k") [] 2_000 default_request ≢ none
lookup_total_example =
    lookup_total header_maps default_request [] 2_000 lru holding (codes "k") held_young
