-- ===== src/Tests/Storing.antt =====
-- The store of src/cache/store.rs on entries that are their own sizes, under a budget of ten.
use hypershunt.Prelude.{ℕ, ◌+◌, ◌≤◌, ◌≡◌, refl, [], ◌∷◌, ltb, arith, if◌then◌else◌}
use hypershunt.Prelude.Text.{Text, codes, eq_text, contains_text}
use hypershunt.Cache.Store.{
  Lru, CacheStore, new_store, store_insert, evict_expired, shrink, put_counted, count_store,
  evict_one, begin_fetch, follower, leader,
}
use hypershunt.Cache.Store.Assoc.{lookup, erase, split_last, filter, total}
use hypershunt.Cache.Store.Bytes.{IsValid, new_store-IsValid}
use hypershunt.Cache.Store.Insert.{Shrinks, store_insert-Shrinks}
use hypershunt.Cache.Store.Evict.{HasDistinctKeys, evict_expired-filter}
use hypershunt.Cache.Store.Flight.{Reached, Reached-one_leader}
use hypershunt.Tests.Fixtures.{list_lru}

abbrev size : ℕ → ℕ
size n = n

abbrev lru : Lru ℕ
lru = list_lru ℕ

abbrev empty_store : CacheStore lru.Map
empty_store = new_store size lru 10

empty_store-IsValid : IsValid size lru empty_store
empty_store-IsValid = new_store-IsValid size lru 10 (omega arith)

budget : empty_store.max_bytes ≡ 10
unfolding new_store
budget = refl

abbrev one : CacheStore lru.Map
one = store_insert size lru empty_store (codes "a") 6

one_small : 6 ≤ empty_store.max_bytes
unfolding new_store
one_small = omega arith

one-IsValid : IsValid size lru one
one-IsValid =
    (store_insert-Shrinks size lru empty_store (codes "a") 6 empty_store-IsValid one_small).1

-- The second entry does not fit beside the first.
two_evicts :
    (lru.entries (store_insert size lru one (codes "b") 7).map ≡ (codes "b", 7) ∷ [])
    × ((store_insert size lru one (codes "b") 7).bytes ≡ 7)
unfolding store_insert shrink put_counted count_store evict_one new_store lookup erase split_last
    eq_text
two_evicts = (refl, refl)

two_small : 7 ≤ one.max_bytes
unfolding store_insert shrink put_counted count_store new_store lookup
two_small = omega arith

store_insert-Shrinks_example :
    Shrinks size lru one
      (store_insert size lru one (codes "b") 7)
      (codes "b")
      7
      (erase (codes "b") (lru.entries one.map))
    × IsValid size lru (store_insert size lru one (codes "b") 7)
store_insert-Shrinks_example = store_insert-Shrinks size lru one (codes "b") 7 one-IsValid two_small

abbrev pair : CacheStore lru.Map
pair = record {
  map = (codes "a", 3) ∷ (codes "b", 4) ∷ [];
  bytes = 7;
  max_bytes = 10;
  inflight = [];
  cache_evictions = 0;
  cache_stores = 2;
}

pair-IsValid : IsValid size lru pair
unfolding total
pair-IsValid = record { counted = refl; bounded = omega arith; sane = omega arith }

pair_distinct : HasDistinctKeys pair.map
pair_distinct = (((λ e. ground (arith, e)), tt), (tt, tt))

evict_expired-filter_example :
    (lru.entries (evict_expired size lru (λ v. ltb 3 v) pair).map
      ≡ filter (λ v. ltb 3 v) (lru.entries pair.map))
    × IsValid size lru (evict_expired size lru (λ v. ltb 3 v) pair)
evict_expired-filter_example =
    evict_expired-filter size lru (λ v. ltb 3 v) pair pair_distinct pair-IsValid

abbrev led : CacheStore lru.Map
led = (begin_fetch pair (codes "a")).1

abbrev followed : CacheStore lru.Map
followed = (begin_fetch led (codes "a")).1

abbrev alive_led : Text → ℕ
alive_led = λ k. (if eq_text (codes "a") k then 1 else 0) + 0

leads_first : (begin_fetch pair (codes "a")).0 ≡ leader
unfolding begin_fetch contains_text
leads_first = refl

follows_next : (begin_fetch led (codes "a")).0 ≡ follower
unfolding begin_fetch contains_text eq_text
follows_next = refl

reached : Reached followed alive_led
reached =
    Reached.joins (codes "a") (Reached.leads (codes "a") (Reached.start pair refl) leads_first)
      follows_next

Reached-one_leader_example :
    alive_led (codes "a") ≡ (if contains_text followed.inflight (codes "a") then 1 else 0)
Reached-one_leader_example = Reached-one_leader reached (codes "a")
