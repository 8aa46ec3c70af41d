-- ===== src/Cache/Store/Bytes.antt =====
-- The byte accounting of the store in src/cache/store.rs: the running sum is exact and stays within
-- the budget, through every operation.
use hypershunt.Prelude.{ℕ, ◌+◌, ◌≤◌, ◌<◌, ◌≡◌, sym, ap, ◌∙◌, inl, inr, List, arith, Option-cases}
use hypershunt.Prelude.Text.{Text, u64_values}
use hypershunt.Cache.Store.Assoc.{lookup, erase, total, total-erase}
use hypershunt.Cache.Store.Defs.{
  Lru, CacheStore, new_store, store_get, store_remove, touch, uncount,
}

module _ {V : Type 0} (size : V → ℕ) (lru : Lru V) where
  open lru use {Map, entries, get, put, pop, pop_lru}

  -- The running sum is the size of all entries, and within the budget, which is at most half of the
  -- 64-bit range.
  pub record IsValid (s : CacheStore Map) : Type 0 where
    pub counted : s.bytes ≡ total size (entries s.map)
    pub bounded : s.bytes ≤ s.max_bytes
    pub sane : s.max_bytes + s.max_bytes < u64_values

  pub new_store-IsValid : (max : ℕ) → max + max < u64_values → IsValid (new_store size lru max)
  unfolding new_store total
  new_store-IsValid max h = record {
    counted = rw (lru.entries-unbounded);
    bounded = omega arith;
    sane = h;
  }

  total-touch :
      (k : Text) (es : List (Text × V)) → total size (touch k (lookup k es) es) ≡ total size es
  unfolding total
  total-touch k es = elim (Option-cases (lookup k es)) [
    | inl e ↦ rw e
    | inr (v, e) ↦ rw e (omega (arith, rw e at (total-erase size k es)))
  ]

  pub uncount-total :
      (bytes : ℕ) (k : Text) (es : List (Text × V))
      → bytes ≡ total size es
      → uncount size lru bytes (lookup k es) ≡ total size (erase k es)
  uncount-total bytes k es h = elim (Option-cases (lookup k es)) [
    | inl e ↦ rw e (omega (arith, rw e at (total-erase size k es)))
    | inr (v, e) ↦ rw e (omega (arith, rw e at (total-erase size k es)))
  ]

  pub store_get-IsValid :
      (s : CacheStore Map) (k : Text) → IsValid s → IsValid (store_get size lru s k).1
  unfolding store_get
  store_get-IsValid s k h = record {
    counted =
        h.counted ∙ sym (ap (total size) (lru.get_entries s.map k) ∙ total-touch k (entries s.map));
    bounded = h.bounded;
    sane = h.sane;
  }

  pub store_remove-IsValid :
      (s : CacheStore Map) (k : Text) → IsValid s → IsValid (store_remove size lru s k)
  unfolding store_remove
  store_remove-IsValid s k h =
      let left =
        ap (uncount size lru s.bytes) (lru.pop_value s.map k)
        ∙ uncount-total s.bytes k (entries s.map) h.counted in
      let fewer = total-erase size k (entries s.map) in
      record {
        counted = left ∙ sym (ap (total size) (lru.pop_entries s.map k));
        bounded = omega (arith, left, fewer, h.counted, h.bounded);
        sane = h.sane;
      }
