-- ===== src/Cache/Store/Insert.antt =====
-- `insert` of the store in src/cache/store.rs: which entries it keeps, and what it evicts.
use hypershunt.Prelude.{
  ℕ, zero, suc, ◌+◌, ◌-◌, ◌≤◌, ◌<◌, ◌≡◌, refl, sym, ap, subst, ◌∙◌, inl, inr, Bool, true, false,
  ◌&&◌, some, List, [], ◌∷◌, ◌++◌, length, length-append, arith, ltb, Bool-cases, Option-cases,
}
use mathlib.Core.List.{append-nil, append_assoc}
use hypershunt.Prelude.Text.{Text}
use hypershunt.Cache.Store.Assoc.{
  erase, split_last, split_last-none, split_last_append, total, total-erase, total-split_last,
}
use hypershunt.Cache.Store.Bytes.{IsValid, uncount-total}
use hypershunt.Cache.Store.Defs.{
  Lru, CacheStore, store_insert, front_of, last_of, uncount, evict_one, shrink, put_counted,
}

module _ {V : Type 0} (size : V → ℕ) (lru : Lru V) where
  open lru use {Map, entries, get, put, pop, pop_lru}

  -- What the loop of `insert` leaves of a store whose newest entry fits the budget: that entry, and
  -- the longest run of the most recently used others that fits beside it.
  pub record Shrinks (s r : CacheStore Map) (k : Text) (v : V) (rest : List (Text × V))
      : Type 0 where
    pub kept : List (Text × V)
    pub dropped : List (Text × V)
    pub entries_after : entries r.map ≡ (k, v) ∷ kept
    pub split : rest ≡ kept ++ dropped
    pub counted : r.bytes ≡ total size (entries r.map)
    pub bounded : r.bytes ≤ r.max_bytes
    pub budget : r.max_bytes ≡ s.max_bytes
    pub needed :
        (d : Text × V) (ds : List (Text × V))
        → dropped ≡ d ∷ ds
        → s.max_bytes < total size ((k, v) ∷ kept ++ d ∷ [])

  split_last-cons :
      (e : Text × V) (es front : List (Text × V)) (l : Text × V)
      → split_last es ≡ some (front, l)
      → split_last (e ∷ es) ≡ some (e ∷ front, l)
  unfolding split_last
  split_last-cons e es front l h = rw (h, split_last)

  shrink_done :
      (s : CacheStore Map) (k : Text) (v : V) (rest : List (Text × V))
      → entries s.map ≡ (k, v) ∷ rest
      → s.bytes ≡ total size (entries s.map)
      → s.bytes ≤ s.max_bytes
      → Shrinks s s k v rest
  shrink_done s k v rest e c b = record {
    kept = rest;
    dropped = [];
    entries_after = e;
    split = sym (append-nil rest);
    counted = c;
    bounded = b;
    budget = refl;
    needed = λ d ds h. absurd (ground arith);
  }

  -- One eviction of the loop, and then the rest of it.
  shrink_more :
      (s r : CacheStore Map) (k : Text) (v : V) (rest front : List (Text × V)) (l : Text × V)
      → rest ≡ front ++ l ∷ []
      → s.max_bytes < total size ((k, v) ∷ front ++ l ∷ [])
      → Shrinks (evict_one size lru s l (pop_lru s.map).1) r k v front
      → Shrinks s r k v rest
  unfolding evict_one
  shrink_more s r k v rest front l split over h = record {
    kept = h.kept;
    dropped = h.dropped ++ l ∷ [];
    entries_after = h.entries_after;
    split = split ∙ ap (λ x. x ++ l ∷ []) h.split ∙ append_assoc h.kept h.dropped (l ∷ []);
    counted = h.counted;
    bounded = h.bounded;
    budget = h.budget;
    needed = λ d ds e. last_needed h.dropped d ds refl e;
  }
    where
      last_needed :
          (dropped : List (Text × V)) (d : Text × V) (ds : List (Text × V))
          → h.dropped ≡ dropped
          → dropped ++ l ∷ [] ≡ d ∷ ds
          → s.max_bytes < total size ((k, v) ∷ h.kept ++ d ∷ [])
      last_needed [] d ds none_dropped e =
          let all_kept : front ≡ h.kept =
            h.split ∙ ap (λ x. h.kept ++ x) none_dropped ∙ append-nil h.kept in
          let same : l ≡ d = ground arith in rw (← all_kept, ← same) over
      last_needed (x ∷ xs) d ds some_dropped e =
          h.needed d xs (some_dropped ∙ ap (λ y. y ∷ xs) (ground arith))

  stops_within :
      (max bytes n : ℕ) (v : V) (rest : List (Text × V))
      → (ltb max bytes && ltb 1 n) ≡ false
      → n ≡ suc (length rest)
      → bytes ≡ size v + total size rest
      → size v ≤ max
      → bytes ≤ max
  unfolding total
  stops_within max bytes n v [] stop len sum fits = omega arith
  stops_within max bytes n v (x ∷ xs) stop len sum fits = ground arith

  over_budget : (max bytes : ℕ) (b : Bool) → (ltb max bytes && b) ≡ true → max < bytes
  over_budget max bytes b h = ground arith

  one_left : (max bytes n : ℕ) → (ltb max bytes && ltb 1 n) ≡ true → n ≡ 1 → ⊥
  one_left max bytes n more one = ground arith

  shrink-Shrinks :
      (fuel : ℕ) (s : CacheStore Map) (k : Text) (v : V) (rest : List (Text × V))
      → length (entries s.map) ≤ fuel
      → entries s.map ≡ (k, v) ∷ rest
      → s.bytes ≡ total size (entries s.map)
      → size v ≤ s.max_bytes
      → Shrinks s (shrink size lru fuel s) k v rest
  unfolding shrink evict_one total
  shrink-Shrinks zero s k v rest f e c fits = absurd (omega (arith, ap length e))
  shrink-Shrinks (suc fuel) s k v rest f e c fits =
      elim (Bool-cases (ltb s.max_bytes s.bytes && ltb 1 (length (entries s.map)))) [
        | inl more ↦ elim (Option-cases (split_last rest)) [
          | inl alone ↦ absurd (
              one_left s.max_bytes s.bytes (length (entries s.map)) more
                (ap length (e ∙ ap (◌∷◌ (k, v)) (split_last-none rest alone))))
          | inr ((front, l), parts) ↦
              let whole = ap split_last e ∙ split_last-cons (k, v) rest front l parts in
              let popped : (pop_lru s.map).0 ≡ some l =
                lru.pop_lru_value s.map ∙ ap last_of whole in
              let left : entries (pop_lru s.map).1 ≡ (k, v) ∷ front =
                lru.pop_lru_entries s.map ∙ ap front_of whole in
              let split = split_last_append rest front l parts in
              let sizes = total-split_last size rest front l parts in
              let before : s.bytes ≡ size v + total size rest = c ∙ ap (total size) e in
              let after : s.bytes - size l.1 ≡ total size ((k, v) ∷ front) = omega arith in
              rw (more, shrink, popped)
                (shrink_more s _ k v rest front l split
                  (subst (λ x. s.max_bytes < total size ((k, v) ∷ x)) split
                    (omega (arith, before, over_budget s.max_bytes s.bytes _ more)))
                  (shrink-Shrinks fuel (evict_one size lru s l (pop_lru s.map).1) k v front
                    (omega (
                      arith,
                      f,
                      ap length left,
                      ap length e,
                      ap length split,
                      length-append {0} front (l ∷ []),
                    ))
                    left (after ∙ sym (ap (total size) left)) fits))
        ]
        | inr stop ↦
            rw (stop, shrink)
              (shrink_done s k v rest e c (
                stops_within s.max_bytes s.bytes (length (entries s.map)) v rest stop (ap length e)
                  (c ∙ ap (total size) e) fits))
      ]

  put_counted-counted :
      (s : CacheStore Map) (k : Text) (v : V)
      → IsValid size lru s
      → size v ≤ s.max_bytes
      → (entries (put_counted size lru s k v).map ≡ (k, v) ∷ erase k (entries s.map))
        × ((put_counted size lru s k v).bytes
            ≡ total size (entries (put_counted size lru s k v).map))
  unfolding put_counted total
  put_counted-counted s k v h fits =
      let there = lru.put_entries s.map k v in
      let old =
        ap (uncount size lru s.bytes) (lru.put_value s.map k v)
        ∙ uncount-total size lru s.bytes k (entries s.map) h.counted in
      let fewer = total-erase size k (entries s.map) in
      (there, omega (arith, old, fewer, h.counted, h.bounded, h.sane, ap (total size) there))

  -- In a valid store, inserting an entry that fits the budget puts it in front, without the key's
  -- old entry, and evicts the least recently used entries: no more than it has to, so that the
  -- longest run of the most recently used ones stays that fits beside the new entry. The store
  -- stays valid.
  pub store_insert-Shrinks :
      (s : CacheStore Map) (k : Text) (v : V)
      → IsValid size lru s
      → size v ≤ s.max_bytes
      → Shrinks s (store_insert size lru s k v) k v (erase k (entries s.map))
        × IsValid size lru (store_insert size lru s k v)
  unfolding store_insert put_counted
  store_insert-Shrinks s k v h fits =
      let (there, sum) = put_counted-counted s k v h fits in
      let c = put_counted size lru s k v in
      let r =
        shrink-Shrinks (length (entries c.map)) c k v (erase k (entries s.map)) (omega arith) there
          sum fits in
      let runs : ltb s.max_bytes (size v) ≡ false = ground arith in
      rw runs (
        record {
          kept = r.kept;
          dropped = r.dropped;
          entries_after = r.entries_after;
          split = r.split;
          counted = r.counted;
          bounded = r.bounded;
          budget = r.budget;
          needed = r.needed;
        },
        record { counted = r.counted; bounded = r.bounded; sane = omega (arith, r.budget, h.sane) },
      )

  -- An entry larger than the whole budget is refused, and the store is left as it is.
  pub store_insert-refuses :
      (s : CacheStore Map) (k : Text) (v : V)
      → s.max_bytes < size v
      → store_insert size lru s k v ≡ s
  unfolding store_insert
  store_insert-refuses s k v h = ground arith
