-- ===== src/Cache/Store/Evict.antt =====
-- `evict_expired` of the store in src/cache/store.rs.
use hypershunt.Prelude.{
  ℕ, ◌≡◌, ◌≢◌, refl, sym, ap, ◌∙◌, subst, inl, inr, Bool, false, List, [], ◌∷◌, arith, Bool-cases,
  Option-cases, All,
}
use hypershunt.Prelude.Text.{Text, eq_text, eq_text_iff, eq_text_refl}
use hypershunt.Cache.Store.Assoc.{erase, total, total-erase, size_of, filter}
use hypershunt.Cache.Store.Bytes.{IsValid}
use hypershunt.Cache.Store.Defs.{
  Lru, CacheStore, evict_one, stale_keys, evict_key, evict_keys, evict_expired,
}

-- The entries that are left once the given keys are erased in turn.
erase_keys : {V : Type 0} → List Text → List (Text × V) → List (Text × V)
erase_keys [] es = es
erase_keys (k ∷ ks) es = erase_keys ks (erase k es)

-- No key stands twice.
abbrev pub IsAbsent : {V : Type 0} → Text → List (Text × V) → Type 0
IsAbsent k [] = Unit
IsAbsent k ((j, v) ∷ es) = (j ≢ k) × IsAbsent k es

abbrev pub HasDistinctKeys : {V : Type 0} → List (Text × V) → Type 0
HasDistinctKeys [] = Unit
HasDistinctKeys ((k, v) ∷ es) = IsAbsent k es × HasDistinctKeys es

erase-head : {V : Type 0} (k : Text) (v : V) (es : List (Text × V)) → erase k ((k, v) ∷ es) ≡ es
unfolding erase
erase-head k v es = rw (eq_text_refl k) refl

module _ {V : Type 0} (size : V → ℕ) (lru : Lru V) (fresh : V → Bool) where
  -- Erasing keys that a fresh head does not have leaves it in front.
  erase_keys-cons :
      (ks : List Text) (k : Text) (v : V) (es : List (Text × V))
      → All (λ j. k ≢ j) ks
      → erase_keys ks ((k, v) ∷ es) ≡ (k, v) ∷ erase_keys ks es
  unfolding erase_keys erase
  erase_keys-cons [] k v es h = refl
  erase_keys-cons (j ∷ js) k v es (ne, h) =
      let differs : eq_text k j ≡ false = ground (arith, eq_text_iff k j) in
      rw differs (erase_keys-cons js k v (erase j es) h)

  stale_keys-IsAbsent :
      (k : Text) (es : List (Text × V))
      → IsAbsent k es
      → All (λ j. k ≢ j) (stale_keys size lru fresh es)
  unfolding stale_keys
  stale_keys-IsAbsent k [] h = tt
  stale_keys-IsAbsent k ((j, v) ∷ es) (ne, h) = elim (Bool-cases (fresh v)) [
    | inl e ↦ rw e (stale_keys-IsAbsent k es h)
    | inr e ↦ rw e ((λ q. ne (sym q)), stale_keys-IsAbsent k es h)
  ]

  erase_keys-stale_keys :
      (es : List (Text × V))
      → HasDistinctKeys es
      → erase_keys (stale_keys size lru fresh es) es ≡ filter fresh es
  unfolding stale_keys erase_keys erase
  erase_keys-stale_keys [] h = refl
  erase_keys-stale_keys ((k, v) ∷ es) (absent, h) = elim (Bool-cases (fresh v)) [
    | inl e ↦ rw e (
        erase_keys-cons (stale_keys size lru fresh es) k v es (stale_keys-IsAbsent k es absent)
        ∙ ap (◌∷◌ (k, v)) (erase_keys-stale_keys es h))
    | inr e ↦ rw e (
        subst (λ es'. erase_keys (stale_keys size lru fresh es) es' ≡ filter fresh es)
          (sym (erase-head k v es)) (erase_keys-stale_keys es h))
  ]

  open lru use {Map, entries, pop}

  evict_key-entries :
      (s : CacheStore Map) (k : Text)
      → entries (evict_key size lru fresh s k).map ≡ erase k (entries s.map)
  unfolding evict_key evict_one
  evict_key-entries s k = elim (Option-cases ((pop s.map k).0)) [
    | inl e ↦ rw (e, evict_key) (lru.pop_entries s.map k)
    | inr (v, e) ↦ rw (e, evict_key) (lru.pop_entries s.map k)
  ]

  evict_key-IsValid :
      (s : CacheStore Map) (k : Text)
      → IsValid size lru s
      → IsValid size lru (evict_key size lru fresh s k)
  unfolding evict_key evict_one
  evict_key-IsValid s k h =
      let left = ap (total size) (lru.pop_entries s.map k) in
      let fewer = total-erase size k (entries s.map) in
      let found = lru.pop_value s.map k in
      elim (Option-cases ((pop s.map k).0)) [
        | inl e ↦
            let none_there = ap (size_of size) (sym found ∙ e) in
            rw (e, evict_key)
              (record {
                counted = omega (arith, left, fewer, none_there, h.counted);
                bounded = h.bounded;
                sane = h.sane;
              })
        | inr (v, e) ↦
            let there = ap (size_of size) (sym found ∙ e) in
            rw (e, evict_key)
              (record {
                counted = omega (arith, left, fewer, there, h.counted);
                bounded = omega (arith, h.bounded);
                sane = h.sane;
              })
      ]

  evict_keys-IsValid :
      (ks : List Text) (s : CacheStore Map)
      → IsValid size lru s
      → IsValid size lru (evict_keys size lru fresh s ks)
        × (entries (evict_keys size lru fresh s ks).map ≡ erase_keys ks (entries s.map))
  unfolding evict_keys erase_keys
  evict_keys-IsValid [] s h = (h, refl)
  evict_keys-IsValid (k ∷ ks) s h =
      let (valid, same) =
        evict_keys-IsValid ks (evict_key size lru fresh s k) (evict_key-IsValid s k h) in
      (valid, same ∙ ap (erase_keys ks) (evict_key-entries s k))

  -- The sweep of a valid store in which no key stands twice keeps exactly the entries that are
  -- still fresh, in their order, and leaves a valid store.
  pub evict_expired-filter :
      (s : CacheStore Map)
      → HasDistinctKeys (entries s.map)
      → IsValid size lru s
      → (entries (evict_expired size lru fresh s).map ≡ filter fresh (entries s.map))
        × IsValid size lru (evict_expired size lru fresh s)
  unfolding evict_expired
  evict_expired-filter s distinct h =
      let (valid, same) = evict_keys-IsValid (stale_keys size lru fresh (entries s.map)) s h in
      (same ∙ erase_keys-stale_keys (entries s.map) distinct, valid)
