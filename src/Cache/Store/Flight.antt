-- ===== src/Cache/Store/Flight.antt =====
-- Request coalescing in src/cache/store.rs: `begin_fetch` and the drop of the leader's guard, as the
-- steps that concurrent requests take.
use hypershunt.Prelude.{
  ℕ, ◌+◌, ◌-◌, ◌<◌, ◌≡◌, false, List, [], ◌∷◌, arith, Bool-cases, inl, inr, if◌then◌else◌,
}
use hypershunt.Prelude.Text.{Text, eq_text, eq_text_iff, contains_text}
use hypershunt.Cache.Store.Defs.{CacheStore, leader, follower, begin_fetch, drop_leader, without}

contains_text-without :
    (key k : Text) (ks : List Text)
    → contains_text (without key ks) k ≡ (if eq_text key k then false else contains_text ks k)
unfolding without contains_text
contains_text-without key k [] = ground arith
contains_text-without key k (j ∷ ks) =
    ground
      (arith, contains_text-without key k ks, eq_text_iff j key, eq_text_iff key k, eq_text_iff j k)

module _ {Map : Type 0} where
  -- The stores that requests reach from one with nothing in flight, with the number of guards that
  -- are alive for each key. A request begins a fetch, or a leader drops its guard.
  pub data Reached : CacheStore Map → (Text → ℕ) → Type 0 where
    start : (s : CacheStore Map) → s.inflight ≡ [] → Reached s (λ k. 0)
    joins :
        {s : CacheStore Map} {alive : Text → ℕ} (key : Text)
        → Reached s alive
        → (begin_fetch s key).0 ≡ follower
        → Reached (begin_fetch s key).1 alive
    leads :
        {s : CacheStore Map} {alive : Text → ℕ} (key : Text)
        → Reached s alive
        → (begin_fetch s key).0 ≡ leader
        → Reached (begin_fetch s key).1 (λ k. (if eq_text key k then 1 else 0) + alive k)
    drops :
        {s : CacheStore Map} {alive : Text → ℕ} (key : Text)
        → Reached s alive
        → 0 < alive key
        → Reached (drop_leader s key) (λ k. alive k - (if eq_text key k then 1 else 0))

  -- In every reachable state a key has at most one leader alive, and it is marked as in flight
  -- exactly while it has one; so the key can be led again once its leader is done.
  pub Reached-one_leader :
      {s : CacheStore Map} {alive : Text → ℕ}
      → Reached s alive
      → (k : Text) → alive k ≡ (if contains_text s.inflight k then 1 else 0)
  unfolding begin_fetch drop_leader contains_text
  Reached-one_leader (start s e) k = rw e
  Reached-one_leader (joins {s} key r e) k = elim (Bool-cases (contains_text s.inflight key)) [
    | inl c ↦ rw c (Reached-one_leader r k)
    | inr c ↦ absurd (ground arith)
  ]
  Reached-one_leader (leads {s} key r e) k = elim (Bool-cases (contains_text s.inflight key)) [
    | inl c ↦ absurd (ground arith)
    | inr c ↦
        rw c (ground (arith, Reached-one_leader r k, Reached-one_leader r key, eq_text_iff key k))
  ]
  Reached-one_leader (drops {s} key r e) k = ground (
    arith,
    Reached-one_leader r k,
    Reached-one_leader r key,
    contains_text-without key k s.inflight,
    eq_text_iff key k,
  )
