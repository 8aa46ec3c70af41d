-- ===== src/Lb/Ring.antt =====
-- The weighted ring of `UpstreamPool::new` in src/lb.rs: its indices are in range, name upstreams of
-- positive weight, and name each of these as often as its weight says.
use hypershunt.Prelude.{
  ℕ, zero, suc, ◌+◌, ◌<◌, ◌≡◌, ◌≢◌, refl, subst, some, List, [], ◌∷◌, ◌++◌, replicate, length,
  get_elem?, get_or, arith, ◌==◌, if◌then◌else◌,
}
use native.Mathlib.Decide.{ℕ_discrete}
use hypershunt.Lb.Defs.{Upstream, ring_from}

-- How often a number stands in a list.
unfoldable pub count : ℕ → List ℕ → ℕ
count i [] = 0
count i (j ∷ js) = (if j == i then 1 else 0) + count i js

count-append : (i : ℕ) (xs ys : List ℕ) → count i (xs ++ ys) ≡ count i xs + count i ys
unfolding count
count-append i [] ys = omega arith
count-append i (x ∷ xs) ys = omega (arith, count-append i xs ys)

count-replicate_self : (n i : ℕ) → count i (replicate n i) ≡ n
unfolding count
count-replicate_self zero i = refl
count-replicate_self (suc n) i = ground (arith, count-replicate_self n i)

count-replicate_ne : (n i j : ℕ) → j ≢ i → count i (replicate n j) ≡ 0
unfolding count
count-replicate_ne zero i j h = refl
count-replicate_ne (suc n) i j h = ground (arith, count-replicate_ne n i j h)

-- The weight of the upstream with an index, or 0.
abbrev pub weight_at : List Upstream → ℕ → ℕ
weight_at [] i = 0
weight_at (u ∷ us) zero = u.weight
weight_at (u ∷ us) (suc i) = weight_at us i

count-ring_from-low : (idx i : ℕ) (us : List Upstream) → i < idx → count i (ring_from idx us) ≡ 0
unfolding ring_from count
count-ring_from-low idx i [] h = refl
count-ring_from-low idx i (u ∷ us) h = omega (
  arith,
  count-append i (replicate u.weight idx) (ring_from (idx + 1) us),
  count-replicate_ne u.weight i idx (omega arith),
  count-ring_from-low (idx + 1) i us (omega arith),
)

count-ring_from :
    (idx k i : ℕ) (us : List Upstream) → i ≡ idx + k → count i (ring_from idx us) ≡ weight_at us k
unfolding ring_from count
count-ring_from idx k i [] h = refl
count-ring_from idx zero i (u ∷ us) h =
    let e : i ≡ idx = omega arith in
    let here : count i (replicate u.weight idx) ≡ u.weight =
      subst (λ j. count i (replicate u.weight j) ≡ u.weight) e (count-replicate_self u.weight i) in
    omega (
      arith,
      count-append i (replicate u.weight idx) (ring_from (idx + 1) us),
      here,
      count-ring_from-low (idx + 1) i us (omega arith),
    )
count-ring_from idx (suc k) i (u ∷ us) h = omega (
  arith,
  count-append i (replicate u.weight idx) (ring_from (idx + 1) us),
  count-replicate_ne u.weight i idx (omega arith),
  count-ring_from (idx + 1) k i us (omega arith),
)

-- The ring names each upstream exactly as often as its weight says, and no other index.
pub count-ring : (us : List Upstream) (i : ℕ) → count i (ring_from 0 us) ≡ weight_at us i
count-ring us i = count-ring_from 0 i i us (omega arith)

-- What stands in a list stands at a position of it.
position_of :
    (i : ℕ) (js : List ℕ) → 0 < count i js → (p : ℕ) × (p < length js) × (get_or js p 0 ≡ i)
unfolding count
position_of i [] h = absurd (omega arith)
position_of i (j ∷ js) h = elim (ℕ_discrete j i) [
  | yes e ↦ (0, omega arith, e)
  | no ne ↦ let (p, lt, e) = position_of i js (ground arith) in (suc p, omega arith, e)
]

-- An upstream of positive weight stands at some position of the ring.
pub ring-position :
    (us : List Upstream) (i : ℕ)
    → 0 < weight_at us i
    → (p : ℕ) × (p < length (ring_from 0 us)) × (get_or (ring_from 0 us) p 0 ≡ i)
ring-position us i h = position_of i (ring_from 0 us) (omega (arith, count-ring us i))

count-get_or : (js : List ℕ) (p : ℕ) → p < length js → 0 < count (get_or js p 0) js
unfolding count
count-get_or [] p h = absurd (omega arith)
count-get_or (j ∷ js) zero h = ground arith
count-get_or (j ∷ js) (suc p) h = omega (arith, count-get_or js p (omega arith))

-- No position of the ring holds an index out of range, or that of an upstream of weight 0.
pub ring-weight :
    (us : List Upstream) (p : ℕ)
    → p < length (ring_from 0 us)
    → 0 < weight_at us (get_or (ring_from 0 us) p 0)
ring-weight us p h =
    omega (arith, count-get_or (ring_from 0 us) p h, count-ring us (get_or (ring_from 0 us) p 0))

-- An upstream of positive weight is there.
pub weight_at-get :
    (us : List Upstream) (i : ℕ) (u : Upstream)
    → get_elem? us i ≡ some u
    → weight_at us i ≡ u.weight
weight_at-get [] i u h = absurd (ground arith)
weight_at-get (v ∷ vs) zero u h = ground arith
weight_at-get (v ∷ vs) (suc i) u h = weight_at-get vs i u h

pub get-weight_at :
    (us : List Upstream) (i : ℕ) → 0 < weight_at us i → (u : Upstream) × (get_elem? us i ≡ some u)
get-weight_at [] i h = absurd (omega arith)
get-weight_at (v ∷ vs) zero h = (v, refl)
get-weight_at (v ∷ vs) (suc i) h = get-weight_at vs i h
