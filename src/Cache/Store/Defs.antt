-- ===== src/Cache/Store/Defs.antt =====
-- The interface of the LRU map, the store's state, and the operations of `CacheStore`.
use hypershunt.Prelude.{
  ℕ, zero, suc, ◌+◌, ◌-◌, ◌%◌, ◌≡◌, Bool, true, false, ◌&&◌, Option, none, some, List, [], ◌∷◌,
  length, ltb, if◌then◌else◌,
}
use hypershunt.Prelude.Text.{Text, eq_text, contains_text, u64_values}
use hypershunt.Cache.Store.Assoc.{lookup, erase, split_last}

-- Moving an entry to the front.
abbrev pub touch : {V : Type 0} → Text → Option V → List (Text × V) → List (Text × V)
touch k none es = es
touch k (some v) es = (k, v) ∷ erase k es

abbrev pub front_of : {V : Type 0} → Option (List (Text × V) × (Text × V)) → List (Text × V)
front_of none = []
front_of (some (front, e)) = front

abbrev pub last_of : {V : Type 0} → Option (List (Text × V) × (Text × V)) → Option (Text × V)
last_of none = none
last_of (some (front, e)) = some e

pub record Lru (V : Type 0) : Type 1 where
  pub Map : Type 0
  pub unbounded : Map
  pub entries : Map → List (Text × V)
  pub get : Map → Text → Option V × Map
  pub put : Map → Text → V → Option V × Map
  pub pop : Map → Text → Option V × Map
  pub pop_lru : Map → Option (Text × V) × Map
  pub entries-unbounded : entries unbounded ≡ []
  pub get_value : (m : Map) (k : Text) → (get m k).0 ≡ lookup k (entries m)
  pub get_entries :
      (m : Map) (k : Text) → entries (get m k).1 ≡ touch k (lookup k (entries m)) (entries m)
  pub put_value : (m : Map) (k : Text) (v : V) → (put m k v).0 ≡ lookup k (entries m)
  pub put_entries :
      (m : Map) (k : Text) (v : V) → entries (put m k v).1 ≡ (k, v) ∷ erase k (entries m)
  pub pop_value : (m : Map) (k : Text) → (pop m k).0 ≡ lookup k (entries m)
  pub pop_entries : (m : Map) (k : Text) → entries (pop m k).1 ≡ erase k (entries m)
  pub pop_lru_value : (m : Map) → (pop_lru m).0 ≡ last_of (split_last (entries m))
  pub pop_lru_entries : (m : Map) → entries (pop_lru m).1 ≡ front_of (split_last (entries m))

-- `CacheStore` with its `Inner`; `inflight` holds the keys that have a leader, and the counters are
-- those of src/metrics.rs that the store adds to.
pub record CacheStore (Map : Type 0) : Type 0 where
  pub map : Map
  pub bytes : ℕ
  pub max_bytes : ℕ
  pub inflight : List Text
  pub cache_evictions : ℕ
  pub cache_stores : ℕ

-- `fetch_add(1)` and `+=` on 64 bits.
abbrev pub wrapping_add : ℕ → ℕ → ℕ
wrapping_add a b = (a + b) % u64_values

module _ {V : Type 0} (size : V → ℕ) (lru : Lru V) where
  open lru use {Map, unbounded, entries, get, put, pop, pop_lru}

  unfoldable pub new_store : ℕ → CacheStore Map
  new_store max_bytes = record {
    map = unbounded;
    bytes = 0;
    max_bytes = max_bytes;
    inflight = [];
    cache_evictions = 0;
    cache_stores = 0;
  }

  unfoldable pub store_get : CacheStore Map → Text → Option V × CacheStore Map
  store_get s key = let (v, m) = get s.map key in (v, record s { map = m })

  -- `bytes.saturating_sub(old.size())`, if something was there.
  abbrev pub uncount : ℕ → Option V → ℕ
  uncount bytes none = bytes
  uncount bytes (some old) = bytes - size old

  -- One eviction of the loop of `insert`.
  unfoldable pub evict_one : CacheStore Map → Text × V → Map → CacheStore Map
  evict_one s (k, evicted) m = record s {
    map = m;
    bytes = s.bytes - size evicted;
    cache_evictions = wrapping_add s.cache_evictions 1;
  }

  -- The loop of `insert`: each round takes an entry out, so their number is fuel enough.
  unfoldable pub shrink : ℕ → CacheStore Map → CacheStore Map
  shrink zero s = s
  shrink (suc fuel) s = elim (ltb s.max_bytes s.bytes && ltb 1 (length (entries s.map))) [
    | false ↦ s
    | true ↦ elim ((pop_lru s.map).0) [
      | none ↦ s
      | some e ↦ shrink fuel (evict_one s e (pop_lru s.map).1)
    ]
  ]

  -- The store once the entry is put and counted.
  unfoldable pub put_counted : CacheStore Map → Text → V → CacheStore Map
  put_counted s key entry = record s {
    map = (put s.map key entry).1;
    bytes = wrapping_add (uncount s.bytes (put s.map key entry).0) (size entry);
  }

  unfoldable pub count_store : CacheStore Map → CacheStore Map
  count_store s = record s { cache_stores = wrapping_add s.cache_stores 1 }

  unfoldable pub store_insert : CacheStore Map → Text → V → CacheStore Map
  unfolding shrink put_counted count_store evict_one
  store_insert s key entry =
      let counted = put_counted s key entry in
      if ltb s.max_bytes (size entry)
      then s
      else count_store (shrink (length (entries counted.map)) counted)

  unfoldable pub store_remove : CacheStore Map → Text → CacheStore Map
  store_remove s key = record s {
    map = (pop s.map key).1;
    bytes = uncount s.bytes (pop s.map key).0;
  }

  module _ (is_fresh : V → Bool) where
    -- The keys of the entries that are no longer fresh.
    unfoldable pub stale_keys : List (Text × V) → List Text
    stale_keys [] = []
    stale_keys ((k, v) ∷ es) = let rest = stale_keys es in if is_fresh v then rest else k ∷ rest

    unfoldable pub evict_key : CacheStore Map → Text → CacheStore Map
    evict_key s key = elim ((pop s.map key).0) [
      | none ↦ record s { map = (pop s.map key).1 }
      | some old ↦ evict_one s (key, old) (pop s.map key).1
    ]

    unfoldable pub evict_keys : CacheStore Map → List Text → CacheStore Map
    evict_keys s [] = s
    evict_keys s (k ∷ ks) = evict_keys (evict_key s k) ks

    unfoldable pub evict_expired : CacheStore Map → CacheStore Map
    unfolding stale_keys evict_keys evict_key
    evict_expired s = evict_keys s (stale_keys (entries s.map))

  unfoldable pub stats : CacheStore Map → ℕ × ℕ
  stats s = (length (entries s.map), s.bytes)

pub data FetchRole : Type 0 where
  leader follower : FetchRole

unfoldable pub without : Text → List Text → List Text
without key [] = []
without key (k ∷ ks) = let rest = without key ks in if eq_text k key then rest else k ∷ rest

module _ {Map : Type 0} where
  unfoldable pub begin_fetch : CacheStore Map → Text → FetchRole × CacheStore Map
  begin_fetch s key =
      if contains_text s.inflight key
      then (follower, s)
      else (leader, record s { inflight = key ∷ s.inflight })

  -- The drop of a `LeaderGuard`.
  unfoldable pub drop_leader : CacheStore Map → Text → CacheStore Map
  unfolding without
  drop_leader s key = record s { inflight = without key s.inflight }
