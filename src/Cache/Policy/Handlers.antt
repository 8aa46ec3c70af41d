-- ===== src/Cache/Policy/Handlers.antt =====
-- `lookup`, `serve_revalidated` and `maybe_store`, over a store of responses.
use hypershunt.Prelude.{ℕ, Bool, false, not, ◌&&◌, ◌||◌, Option, none, some, leb, if◌then◌else◌}
use hypershunt.Prelude.Text.{Text, codes, parse_uint, u64_values}
use hypershunt.Http.{HeaderMaps, Response, content_length}
use hypershunt.Cache.Entry.{
  StoredResponse, ◌>>=◌, get_text, is_fresh, staleness, has_validators, vary_matches,
  client_not_modified, to_response, not_modified_response, new_stored, with_stale_windows,
  refreshed,
}
use hypershunt.Cache.Control.{RequestCacheControl, parse_response}
use hypershunt.Cache.Store.{Lru, CacheStore, store_get, store_insert, store_remove, wrapping_add}
use hypershunt.Cache.Policy.Defs.{
  CachePolicy, Decision, Lookup, hit, stale_while_revalidate, revalidate, miss, some_and, too_old,
  min_fresh_unmet, accepts_stale, within, age_of, lifetime_from, evaluate,
}

-- The weight of an entry in the store.
abbrev pub size : {Map : Type 0} → StoredResponse Map → ℕ
size r = r.size

module _ (H : HeaderMaps) where
  -- The last steps of `serve_revalidated` and of the fresh branch of `lookup`.
  unfoldable pub serve_fresh : StoredResponse H.Map → H.Map → ℕ → Option (Response H.Map)
  serve_fresh entry req_headers now =
      if client_not_modified H entry req_headers
      then not_modified_response H entry now
      else to_response H entry now

  unfoldable pub stale_response : StoredResponse H.Map → ℕ → Option (Response H.Map)
  stale_response entry now = to_response H entry now

  -- The response where the origin's body cannot be read.
  abbrev pub bad_gateway : Response H.Map
  bad_gateway = record {
    status = 502;
    headers = H.empty;
    body = some (codes "<h1>502 Bad Gateway</h1>");
  }

  -- `Content-Length` is there, is a number and does not exceed the cap.
  unfoldable pub fits : CachePolicy → H.Map → Bool
  fits policy headers =
      some_and (get_text H headers content_length >>= parse_uint u64_values)
        (λ n. leb n policy.max_object_size)

  -- The entry that `maybe_store` makes of a decision.
  unfoldable pub stored_as : Decision → ℕ → H.Map → Text → ℕ → StoredResponse H.Map
  stored_as d status headers body now =
      with_stale_windows (new_stored H status headers body d.lifetime d.initial_age d.vary now)
        d.swr d.sie

  module _ (lru : Lru (StoredResponse H.Map)) where
    -- `lookup` from the point on where the entry is known to be stale.
    unfoldable pub lookup_stale :
        CacheStore lru.Map
        → Text
        → StoredResponse H.Map
        → ℕ
        → RequestCacheControl
        → Option (Lookup H.Map × CacheStore lru.Map)
    lookup_stale s key entry now rcc =
        let stale = staleness entry now in
        let sie_ok = within stale entry.sie in
        if accepts_stale rcc stale
        then (to_response H entry now >>= λ r. some (hit r, s))
        else if not rcc.no_cache && within stale entry.swr
        then some (stale_while_revalidate entry, s)
        else if has_validators entry || sie_ok
        then some (revalidate entry sie_ok, s)
        else some (miss, store_remove size lru s key)

    -- `lookup` for an entry whose variant matches.
    unfoldable pub lookup_entry :
        CacheStore lru.Map
        → Text
        → StoredResponse H.Map
        → H.Map
        → ℕ
        → RequestCacheControl
        → Option (Lookup H.Map × CacheStore lru.Map)
    unfolding lookup_stale serve_fresh
    lookup_entry s key entry req_headers now rcc = too_old rcc entry now >>= λ old.
        if is_fresh entry now && not rcc.no_cache && not old && not (min_fresh_unmet rcc entry now)
        then (serve_fresh entry req_headers now >>= λ r. some (hit r, s))
        else if is_fresh entry now
        then some ((if has_validators entry then revalidate entry false else miss), s)
        else lookup_stale s key entry now rcc

    unfoldable pub lookup :
        CacheStore lru.Map
        → Text
        → H.Map
        → ℕ
        → RequestCacheControl
        → Option (Lookup H.Map × CacheStore lru.Map)
    unfolding lookup_entry
    lookup s key req_headers now rcc = elim ((store_get size lru s key).0) [
      | none ↦ some (miss, (store_get size lru s key).1)
      | some entry ↦
          if vary_matches H entry req_headers
          then lookup_entry (store_get size lru s key).1 key entry req_headers now rcc
          else some (miss, (store_get size lru s key).1)
    ]

    -- The headers of the 304 are an argument; its body is dropped.
    unfoldable pub serve_revalidated :
        CachePolicy
        → CacheStore lru.Map
        → Text
        → StoredResponse H.Map
        → H.Map
        → H.Map
        → ℕ
        → Option (Response H.Map) × CacheStore lru.Map
    unfolding serve_fresh
    serve_revalidated policy s key entry headers orig_req_headers now =
        let renewed =
          refreshed H entry headers (lifetime_from H policy (parse_response H headers) headers)
            (age_of H headers) now in
        (serve_fresh renewed orig_req_headers now, store_insert size lru s key renewed)

    -- `cache_bypass` is the metric of that name. The state is the store and that counter.
    module _ (header_name : Text → Option Text) where
      unfoldable pub maybe_store :
          CachePolicy
          → CacheStore lru.Map
          → ℕ
          → Text
          → H.Map
          → Response H.Map
          → ℕ
          → Option (Response H.Map) × (CacheStore lru.Map × ℕ)
      unfolding fits stored_as
      maybe_store policy s cache_bypass key req_headers resp now =
          elim (evaluate H header_name policy resp.status resp.headers req_headers) [
            | none ↦ (some resp, (s, wrapping_add cache_bypass 1))
            | some d ↦
                if fits policy resp.headers
                then elim resp.body [
                  | none ↦ (some bad_gateway, (s, cache_bypass))
                  | some bytes ↦
                      let stored = stored_as d resp.status resp.headers bytes now in
                      (to_response H stored now, (store_insert size lru s key stored, cache_bypass))
                ]
                else (some resp, (s, wrapping_add cache_bypass 1))
          ]
