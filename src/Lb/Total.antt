-- ===== src/Lb/Total.antt =====
-- One pass of `pick` in src/lb.rs finds an upstream if any is eligible, under each policy; and what a
-- pass leaves of the pool.
use hypershunt.Prelude.{
  ℕ, ◌+◌, ◌≤◌, ◌<◌, ◌≡◌, refl, sym, ap, ◌∙◌, inl, inr, Bool, true, false, Option, none, some, List,
  [], ◌∷◌, length, get_or, arith, Bool-cases, Option-cases, is_empty,
}
use hypershunt.Prelude.Text.{Text}
use hypershunt.Lb.Defs.{
  Upstream, is_available, LbPolicy, round_robin, least_conn, random, ip_hash, header_hash, Metrics,
  UpstreamPool, PickCtx, ring_from, u64_values,
}
use hypershunt.Lb.Pick.{
  is_eligible, Clock, Hasher, header_start, or_next, choose_start, eligible_at, scan_ring,
  pick_least_conn, pick_ring, pick_by, pick_where,
}
use hypershunt.Lb.Ring.{weight_at, ring-position, weight_at-get}
use hypershunt.Lb.Scan.{scan_ring_complete}
use hypershunt.Lb.Least.{least_from-cost}
use hypershunt.Lb.Choice.{Holds}

-- The ring is the one that `UpstreamPool::new` builds for the pool's upstreams.
abbrev pub IsRinged : UpstreamPool → Type 0
IsRinged pool = pool.weighted_ring ≡ ring_from 0 pool.upstreams

-- The ring fits between the start that a policy chooses and the largest number; `LeastConn` chooses
-- no start.
abbrev pub StartFits : Hasher → PickCtx → Clock → UpstreamPool → LbPolicy → Type 0
StartFits hasher ctx clock pool least_conn = Unit
StartFits hasher ctx clock pool policy =
    (choose_start hasher pool ctx clock policy).0 + length pool.weighted_ring ≤ u64_values

-- The start that a pass over the pool chooses leaves room for the ring.
abbrev pub HasRoom : Hasher → PickCtx → Clock → UpstreamPool → Type 0
HasRoom hasher ctx clock pool = StartFits hasher ctx clock pool pool.policy

or_next-counter : (o : Option ℕ) (counter : ℕ) → (or_next o counter).1 ≤ counter + 1
unfolding or_next
or_next-counter none counter = omega arith
or_next-counter (some s) counter = omega arith

module _ (hasher : Hasher) (ctx : PickCtx) (clock : Clock) where
  -- The metrics of a pool have no part in the start.
  StartFits-metrics :
      (pool : UpstreamPool) (m : Option Metrics) (policy : LbPolicy)
      → StartFits hasher ctx clock pool policy
      → StartFits hasher ctx clock (record pool { metrics = m }) policy
  unfolding choose_start header_start
  StartFits-metrics pool m round_robin h = h
  StartFits-metrics pool m least_conn h = h
  StartFits-metrics pool m random h = h
  StartFits-metrics pool m ip_hash h = h
  StartFits-metrics pool m header_hash h = h

  pub HasRoom-metrics :
      (pool : UpstreamPool) (m : Option Metrics)
      → HasRoom hasher ctx clock pool
      → HasRoom hasher ctx clock (record pool { metrics = m })
  HasRoom-metrics pool m h = StartFits-metrics pool m pool.policy h

  choose_start-counter :
      (pool : UpstreamPool) (policy : LbPolicy)
      → (choose_start hasher pool ctx clock policy).1 ≤ pool.rr_counter + 1
  unfolding choose_start
  choose_start-counter pool round_robin = or_next-counter none _
  choose_start-counter pool least_conn = or_next-counter none _
  choose_start-counter pool random = omega arith
  choose_start-counter pool ip_hash = or_next-counter _ _
  choose_start-counter pool header_hash = or_next-counter _ _

is_eligible-weight :
    (now_ms : ℕ) (group : Option Text) (u : Upstream)
    → is_eligible now_ms group u ≡ true
    → 0 < u.weight
unfolding is_eligible is_available
is_eligible-weight now_ms none u h = ground arith
is_eligible-weight now_ms (some g) u h = ground arith

eligible_at-true :
    (us : List Upstream) (test : Upstream → Bool) (i : ℕ)
    → Holds us test i
    → eligible_at us test i ≡ true
unfolding eligible_at
eligible_at-true us test i (u, g, h) = ground arith

is_empty-false : (ring : List ℕ) (p : ℕ) → p < length ring → is_empty ring ≡ false
is_empty-false [] p h = absurd (omega arith)
is_empty-false (x ∷ xs) p h = refl

pick_least_conn_total :
    (pool : UpstreamPool) (test : Upstream → Bool) (k : ℕ)
    → Holds pool.upstreams test k
    → (i : ℕ) × ((pick_least_conn pool test).0 ≡ some i)
unfolding pick_least_conn
pick_least_conn_total pool test k (u, g, h) =
    let ((c, i), found, low) = least_from-cost pool.rr_counter test pool.upstreams 0 none k u g h in
    (i, rw (found, pick_least_conn))

module _ (hasher : Hasher) (ctx : PickCtx) (clock : Clock) where
  pick_ring_total :
      (pool : UpstreamPool) (test : Upstream → Bool) (k : ℕ)
      → IsRinged pool
      → (choose_start hasher pool ctx clock pool.policy).0 + length pool.weighted_ring ≤ u64_values
      → ((u : Upstream) → test u ≡ true → 0 < u.weight)
      → Holds pool.upstreams test k
      → (i : ℕ) × ((pick_ring hasher pool ctx clock test).0 ≡ some i)
  unfolding pick_ring
  pick_ring_total pool test k ringed room weighs (u, g, h) =
      let start = (choose_start hasher pool ctx clock pool.policy).0 in
      let ring = pool.weighted_ring in
      let heavy : 0 < weight_at pool.upstreams k =
        omega (arith, weight_at-get pool.upstreams k u g, weighs u h) in
      let (p, lt, at_p) = ring-position pool.upstreams k heavy in
      let lt' : p < length ring = rw ringed lt in
      let at_p' : get_or ring p 0 ≡ k = rw ringed at_p in
      elim (Option-cases (scan_ring pool.upstreams test ring start (length ring) 0)) [
        | inr (i, found) ↦ (i, ground (arith, is_empty-false ring p lt'))
        | inl none_found ↦
            let fails = scan_ring_complete pool.upstreams test ring start room none_found p lt' in
            let holds = eligible_at-true pool.upstreams test k (u, g, h) in absurd (ground arith)
      ]

  pick_by_total :
      (policy : LbPolicy) (pool : UpstreamPool) (test : Upstream → Bool) (k : ℕ)
      → pool.policy ≡ policy
      → IsRinged pool
      → StartFits hasher ctx clock pool policy
      → ((u : Upstream) → test u ≡ true → 0 < u.weight)
      → Holds pool.upstreams test k
      → (i : ℕ) × ((pick_by hasher policy pool ctx clock test).0 ≡ some i)
  unfolding pick_by
  pick_by_total least_conn pool test k same ringed room weighs h =
      pick_least_conn_total pool test k h
  pick_by_total _ pool test k same ringed room weighs h =
      pick_ring_total pool test k ringed (rw same room) weighs h

  -- A pass over a pool with its ring finds an upstream if any is eligible in that pass, provided that
  -- the start it chooses leaves room for the ring.
  pub pick_where_total :
      (pool : UpstreamPool) (group : Option Text) (k : ℕ)
      → IsRinged pool
      → HasRoom hasher ctx clock pool
      → Holds pool.upstreams (is_eligible clock.now_ms group) k
      → (i : ℕ) × ((pick_where hasher pool ctx clock group).0 ≡ some i)
  unfolding pick_where
  pick_where_total pool group k ringed room h =
      pick_by_total pool.policy pool _ k refl ringed room (is_eligible-weight clock.now_ms group) h

-- A pass changes nothing of the pool but its counter, which moves on by one at most.
pub record Moves (pool pool' : UpstreamPool) : Type 0 where
  pub upstreams : pool'.upstreams ≡ pool.upstreams
  pub ring : pool'.weighted_ring ≡ pool.weighted_ring
  pub counter : pool'.rr_counter ≤ pool.rr_counter + 1

module _ (hasher : Hasher) (ctx : PickCtx) (clock : Clock) where
  pick_by-Moves :
      (policy : LbPolicy) (pool : UpstreamPool) (test : Upstream → Bool)
      → Moves pool (pick_by hasher policy pool ctx clock test).1
  unfolding pick_by pick_least_conn pick_ring
  pick_by-Moves least_conn pool test = record {
    upstreams = refl;
    ring = refl;
    counter = omega arith;
  }
  pick_by-Moves _ pool test = elim (Bool-cases (is_empty pool.weighted_ring)) [
    | inl e ↦ rw (e, pick_ring) (record { upstreams = refl; ring = refl; counter = omega arith })
    | inr e ↦
        rw (e, pick_ring)
          (record {
            upstreams = refl;
            ring = refl;
            counter = choose_start-counter hasher ctx clock pool pool.policy;
          })
  ]

  pub pick_where-Moves :
      (pool : UpstreamPool) (group : Option Text)
      → Moves pool (pick_where hasher pool ctx clock group).1
  unfolding pick_where
  pick_where-Moves pool group = pick_by-Moves pool.policy pool _

pub IsRinged-Moves : (pool pool' : UpstreamPool) → IsRinged pool → Moves pool pool' → IsRinged pool'
IsRinged-Moves pool pool' r m = m.ring ∙ r ∙ ap (ring_from 0) (sym m.upstreams)
