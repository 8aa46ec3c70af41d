-- ===== src/Cache/Policy/Writing.antt =====
-- `maybe_store` of src/cache/policy.rs followed by `lookup`: what is stored is served again.
use hypershunt.Prelude.{
  ℕ, ◌+◌, ◌-◌, ◌≤◌, ◌<◌, ◌≡◌, refl, inl, inr, true, Option, some, length, arith, Option-cases,
}
use hypershunt.Prelude.Text.{Text, eq_text_refl}
use hypershunt.Http.{HeaderMaps, Response}
use hypershunt.Cache.Entry.{
  StoredResponse, ◌>>=◌, vary_matches, is_fresh, new_stored, with_stale_windows, duration_values,
}
use hypershunt.Cache.Control.{default_request}
use hypershunt.Cache.Store.{Lru, CacheStore, store_get, store_insert}
use hypershunt.Cache.Store.Assoc as Assoc
use hypershunt.Cache.Store.Bytes.{IsValid}
use hypershunt.Cache.Store.Insert.{store_insert-Shrinks}
use hypershunt.Cache.Policy.{
  CachePolicy, Decision, hit, evaluate, fits, stored_as, maybe_store, lookup, lookup_entry, too_old,
  min_fresh_unmet, serve_fresh, size,
}
use hypershunt.Cache.Policy.Serving.{elapsed, serve_total}
use hypershunt.Cache.Policy.Storable.{evaluate-selects}

module _ (H : HeaderMaps) (header_name : Text → Option Text)
    (lru : Lru (StoredResponse H.Map)) where
  -- The newest entry is found.
  found_first :
      (s : CacheStore lru.Map) (key : Text) (v : StoredResponse H.Map)
      → IsValid size lru s
      → v.size ≤ s.max_bytes
      → (lru.get (store_insert size lru s key v).map key).0 ≡ some v
  unfolding Assoc.lookup
  found_first s key v valid small =
      let (shrunk, _) = store_insert-Shrinks size lru s key v valid small in
      rw (lru.get_value, shrunk.entries_after, eq_text_refl) refl

  lookup_fresh :
      (s : CacheStore lru.Map) (key : Text) (v : StoredResponse H.Map) (req_headers : H.Map)
      (now : ℕ)
      → (lru.get s.map key).0 ≡ some v
      → vary_matches H v req_headers ≡ true
      → is_fresh v now ≡ true
      → lookup H lru s key req_headers now default_request
        ≡ (serve_fresh H v req_headers now >>= λ r. some (hit r, (store_get size lru s key).1))
  unfolding lookup lookup_entry store_get too_old min_fresh_unmet
  lookup_fresh s key v req_headers now found matches fresh = ground arith

  maybe_store-inserts :
      (policy : CachePolicy) (s : CacheStore lru.Map) (cache_bypass : ℕ) (key : Text)
      (req_headers : H.Map) (resp : Response H.Map) (d : Decision) (bytes : Text) (now : ℕ)
      → evaluate H header_name policy resp.status resp.headers req_headers ≡ some d
      → fits H policy resp.headers ≡ true
      → resp.body ≡ some bytes
      → (maybe_store H lru header_name policy s cache_bypass key req_headers resp now).1.0
        ≡ store_insert size lru s key (stored_as H d resp.status resp.headers bytes now)
  unfolding maybe_store
  maybe_store-inserts policy s cache_bypass key req_headers resp d bytes now e f b =
      rw (e, maybe_store, f, b) refl

  -- An entry whose age a duration can hold is served while it is fresh.
  lookup_serves :
      (s : CacheStore lru.Map) (key : Text) (v : StoredResponse H.Map) (req_headers : H.Map)
      (now : ℕ)
      → (lru.get s.map key).0 ≡ some v
      → vary_matches H v req_headers ≡ true
      → is_fresh v now ≡ true
      → v.initial_age + elapsed v now < duration_values
      → (r : Response H.Map) × (serve_fresh H v req_headers now ≡ some r)
        × (lookup H lru s key req_headers now default_request
            ≡ some (hit r, (store_get size lru s key).1))
  lookup_serves s key v req_headers now found matches fresh young =
      let answer = lookup_fresh s key v req_headers now found matches fresh in
      elim (Option-cases (serve_fresh H v req_headers now)) [
        | inl n ↦ absurd ((serve_total H default_request req_headers now lru v young).1 n)
        | inr (r, e) ↦ (r, e, rw e at answer)
      ]

  -- In a valid store, a response that `evaluate` accepts, whose `Content-Length` fits the cap,
  -- whose body can be read and fits the store's budget, is served by the next lookup of its key, for
  -- a request with the same headers and no directives, at any time before its lifetime has passed
  -- and while its age, with that on arrival, is one that a `Duration` can hold: the lookup answers
  -- with the stored entry, or its 304.
  pub maybe_store-lookup :
      (policy : CachePolicy) (s : CacheStore lru.Map) (cache_bypass : ℕ) (key : Text)
      (req_headers : H.Map) (resp : Response H.Map) (d : Decision) (bytes : Text) (now later : ℕ)
      → IsValid size lru s
      → evaluate H header_name policy resp.status resp.headers req_headers ≡ some d
      → fits H policy resp.headers ≡ true
      → resp.body ≡ some bytes
      → length bytes ≤ s.max_bytes
      → later - now < d.lifetime
      → d.initial_age + (later - now) < duration_values
      → let stored = stored_as H d resp.status resp.headers bytes now in
        let after =
          (maybe_store H lru header_name policy s cache_bypass key req_headers resp now).1.0 in
        (r : Response H.Map) × (serve_fresh H stored req_headers later ≡ some r)
        × (lookup H lru after key req_headers later default_request
            ≡ some (hit r, (store_get size lru after key).1))
  unfolding stored_as with_stale_windows new_stored is_fresh vary_matches
  maybe_store-lookup policy s cache_bypass key req_headers resp d bytes now later valid e f b small
        soon young =
      rw (maybe_store-inserts policy s cache_bypass key req_headers resp d bytes now e f b) (
        lookup_serves
          (store_insert size lru s key (stored_as H d resp.status resp.headers bytes now)) key
          (stored_as H d resp.status resp.headers bytes now) req_headers later
          (found_first s key (stored_as H d resp.status resp.headers bytes now) valid small)
          (evaluate-selects H header_name policy resp.status resp.headers req_headers d e)
          (ground arith) young)
