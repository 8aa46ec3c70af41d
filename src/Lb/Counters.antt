-- ===== src/Lb/Counters.antt =====
-- The traffic counters of an upstream in src/lb.rs and the in-flight guard.
use hypershunt.Prelude.{
  ℕ, zero, suc, ◌+◌, ◌%◌, ◌≤◌, ◌<◌, ◌≡◌, refl, ◌∙◌, Bool, Option, List, [], ◌∷◌, length, get_or,
  set, length-set, arith,
}
use hypershunt.Prelude.Text.{Text}
use hypershunt.Lb.Defs.{
  Upstream, new_upstream, record_request, bump_bucket, position_below, latency_bucket_us,
  latency_bounds_us, latency_buckets, add64, u64_values, u32_values, acquire, release,
}

unfoldable pub sum : List ℕ → ℕ
sum [] = 0
sum (x ∷ xs) = x + sum xs

position_below-le : (bs : List ℕ) (us : ℕ) → position_below bs us ≤ length bs
unfolding position_below
position_below-le [] us = omega arith
position_below-le (b ∷ bs) us = ground (arith, position_below-le bs us)

position_below_reached : (bs : List ℕ) (us k : ℕ) → k < position_below bs us → get_or bs k 0 ≤ us
unfolding position_below
position_below_reached [] us k h = omega arith
position_below_reached (b ∷ bs) us zero h = ground arith
position_below_reached (b ∷ bs) us (suc k) h = ground (arith, position_below_reached bs us k)

position_below_first :
    (bs : List ℕ) (us : ℕ)
    → position_below bs us < length bs
    → us < get_or bs (position_below bs us) 0
unfolding position_below
position_below_first [] us h = absurd (omega arith)
position_below_first (b ∷ bs) us h = ground (arith, position_below_first bs us)

-- A latency's bucket is in range and is the first whose bound is above the latency: every earlier
-- bound is reached, and its own, if it is not the last bucket, is not.
pub latency_bucket_us_bounds :
    (us k : ℕ)
    → (k < latency_bucket_us us → get_or latency_bounds_us k 0 ≤ us)
      × (latency_bucket_us us < 12 → us < get_or latency_bounds_us (latency_bucket_us us) 0)
      × (latency_bucket_us us < latency_buckets)
unfolding latency_bucket_us
latency_bucket_us_bounds us k = (
  position_below_reached latency_bounds_us us k,
  position_below_first latency_bounds_us us,
  omega (arith, position_below-le latency_bounds_us us),
)

length-bump_bucket : (xs : List ℕ) (i : ℕ) → length (bump_bucket xs i) ≡ length xs
unfolding bump_bucket
length-bump_bucket xs i = length-set xs i _

sum-set : (xs : List ℕ) (i v : ℕ) → i < length xs → sum (set xs i v) + get_or xs i 0 ≡ sum xs + v
unfolding sum
sum-set [] i v h = absurd (omega arith)
sum-set (x ∷ xs) zero v h = omega arith
sum-set (x ∷ xs) (suc i) v h = omega (arith, sum-set xs i v (omega arith))

-- A run of finished requests, each with its outcome and latency.
unfoldable pub record_all : List (Bool × ℕ) → Upstream → Upstream
unfolding record_request
record_all [] u = u
record_all ((ok, us) ∷ rest) u = record_all rest (record_request u ok us)

-- The histogram has its buckets, and holds each counted request once.
pub record IsCounted (u : Upstream) : Type 0 where
  pub buckets : length u.latency ≡ latency_buckets
  pub total : sum u.latency ≡ u.requests_total
  pub errors : u.errors_total ≤ u.requests_total

get_or-le-sum : (xs : List ℕ) (i : ℕ) → get_or xs i 0 ≤ sum xs
unfolding sum
get_or-le-sum [] i = omega arith
get_or-le-sum (x ∷ xs) zero = omega arith
get_or-le-sum (x ∷ xs) (suc i) = omega (arith, get_or-le-sum xs i)

record_request-IsCounted :
    (u : Upstream) (ok : Bool) (us : ℕ)
    → u.requests_total + 1 < u64_values
    → IsCounted u
    → IsCounted (record_request u ok us)
unfolding record_request bump_bucket
record_request-IsCounted u ok us small h =
    let i = latency_bucket_us us in
    let inside : i < length u.latency =
      omega (arith, (latency_bucket_us_bounds us 0).2, h.buckets) in
    let low = get_or-le-sum u.latency i in
    let v : ℕ = add64 (get_or u.latency i 0) 1 in
    let plain : v ≡ get_or u.latency i 0 + 1 = omega (arith, h.total) in
    record {
      buckets = length-set u.latency i v ∙ h.buckets;
      total = omega (arith, sum-set u.latency i v inside, h.total, plain);
      errors = ground (arith, h.errors);
    }

-- On an upstream whose buckets add up to its requests and whose errors do not exceed them, that is
-- still so after any further requests, as long as there are fewer than 2^64 in all.
pub record_all-IsCounted :
    (rs : List (Bool × ℕ)) (u : Upstream)
    → u.requests_total + length rs < u64_values
    → IsCounted u
    → IsCounted (record_all rs u)
unfolding record_all
record_all-IsCounted [] u h c = c
record_all-IsCounted ((ok, us) ∷ rs) u h c =
    record_all-IsCounted rs (record_request u ok us) (omega arith)
      (record_request-IsCounted u ok us (omega arith) c)

-- The states of an upstream that guards reach, with the number of guards alive.
pub data Guarded : Upstream → ℕ → Type 0 where
  fresh :
      (url : Text) (weight : ℕ) (group : Option Text) → Guarded (new_upstream url weight group) 0
  acquired : {u : Upstream} {n : ℕ} → Guarded u n → Guarded (acquire u) (suc n)
  dropped : {u : Upstream} {n : ℕ} → Guarded u (suc n) → Guarded (release u) n

-- However acquisitions and drops interleave, the in-flight counter is the number of guards alive,
-- modulo 2^32: no guard leaks and none is counted twice.
pub Guarded-in_flight : {u : Upstream} {n : ℕ} → Guarded u n → u.in_flight ≡ n % u32_values
unfolding new_upstream acquire release
Guarded-in_flight (fresh url weight group) = refl
Guarded-in_flight (acquired g) = omega (arith, Guarded-in_flight g)
Guarded-in_flight (dropped g) = omega (arith, Guarded-in_flight g)
