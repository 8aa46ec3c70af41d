-- ===== src/Lb/Group.antt =====
-- Which upstream a pass of src/lb.rs prefers: a member of the named group, and under `LeastConn` one
-- of least cost.
use hypershunt.Prelude.{
  ℕ, zero, suc, ◌≤◌, ◌≡◌, refl, sym, subst, inl, inr, Bool, true, false, Option, none, some, List,
  [], ◌∷◌, get_elem?, any, arith, is_empty,
}
use hypershunt.Prelude.Text.{Text}
use hypershunt.Lb.Defs.{Upstream, least_conn, UpstreamPool, PickCtx}
use hypershunt.Lb.Pick.{
  has_group, is_eligible, Clock, Hasher, cost, pick_least_conn, pick_by, pick_where, count_pick,
  or_whole, pick_grouped, pick,
}
use hypershunt.Lb.Choice.{Holds, pick_where_sound}
use hypershunt.Lb.Total.{IsRinged, HasRoom, HasRoom-metrics, pick_where_total}
use hypershunt.Lb.Least.{least_from-cost, least_from_origin}

any-get_elem? :
    (test : Upstream → Bool) (us : List Upstream) (k : ℕ) (u : Upstream)
    → get_elem? us k ≡ some u
    → test u ≡ true
    → (any test us ≡ true) × (is_empty us ≡ false)
any-get_elem? test [] k u g h = absurd (ground arith)
any-get_elem? test (v ∷ vs) zero u g h = (ground arith, refl)
any-get_elem? test (v ∷ vs) (suc k) u g h =
    let rest = (any-get_elem? test vs k u g h).0 in (ground arith, refl)

eligible-has_group :
    (now_ms : ℕ) (name : Text) (u : Upstream)
    → is_eligible now_ms (some name) u ≡ true
    → has_group name u ≡ true
unfolding is_eligible
eligible-has_group now_ms name u e = ground arith

module _ (hasher : Hasher) (ctx : PickCtx) (first second : Clock) where
  or_whole-some :
      (out : Option ℕ × UpstreamPool) (i : ℕ)
      → out.0 ≡ some i
      → (or_whole hasher ctx second out).0 ≡ some i
  or_whole-some (some j, pool) i h = h
  or_whole-some (none, pool) i h = absurd (ground arith)

  -- In a pool with the ring that `new` builds, if the request names a group that has an available
  -- member when the group is tried, the pick is an available member of that group. The condition is
  -- that, under a policy other than `LeastConn`, the start chosen in the group's pass and the ring's
  -- length together are at most 2^64.
  pub pick_group :
      (pool : UpstreamPool) (g : Text) (k : ℕ)
      → ctx.group ≡ some g
      → IsRinged pool
      → HasRoom hasher ctx first pool
      → Holds pool.upstreams (is_eligible first.now_ms (some g)) k
      → (i : ℕ) × ((pick hasher pool ctx first second).0 ≡ some i)
        × Holds pool.upstreams (is_eligible first.now_ms (some g)) i
  unfolding pick pick_grouped
  pick_group pool g k named ringed room h =
      let counted = record pool { metrics = count_pick pool.metrics } in
      let member : has_group g h.0 ≡ true = eligible-has_group first.now_ms g h.0 h.2 in
      let (declared, nonempty) = any-get_elem? (has_group g) pool.upstreams k h.0 h.1 member in
      let (i, found) =
        pick_where_total hasher ctx first counted (some g) k ringed
          (HasRoom-metrics hasher ctx first pool (count_pick pool.metrics) room) h in
      let grouped : (pick_grouped hasher (some g) counted ctx first second).0 ≡ some i =
        rw (declared, pick_grouped) (or_whole-some _ i found) in
      (
        i,
        rw nonempty (
            subst (λ o. (pick_grouped hasher o counted ctx first second).0 ≡ some i) (sym named)
              grouped),
        pick_where_sound hasher ctx first counted (some g) i found,
      )

  -- Under `LeastConn`, if an upstream is eligible in a pass, the pass picks one, which is eligible
  -- too and costs no more than it.
  pub pick_where-cost :
      (pool : UpstreamPool) (group : Option Text) (k : ℕ) (u : Upstream)
      → pool.policy ≡ least_conn
      → get_elem? pool.upstreams k ≡ some u
      → is_eligible first.now_ms group u ≡ true
      → (i : ℕ) × (v : Upstream) × ((pick_where hasher pool ctx first group).0 ≡ some i)
        × (get_elem? pool.upstreams i ≡ some v)
        × (is_eligible first.now_ms group v ≡ true)
        × (cost v ≤ cost u)
  unfolding pick_where pick_by pick_least_conn
  pick_where-cost pool group k u policy g e =
      let test = is_eligible first.now_ms group in
      let ((c, i), found, low) =
        least_from-cost pool.rr_counter test pool.upstreams 0 none k u g e in
      elim (least_from_origin pool.rr_counter test pool.upstreams 0 none (c, i) found) [
        | inl b ↦ absurd (ground arith)
        | inr (j, v, at, ok, same, n) ↦
            let ij : i ≡ j = omega arith in
            (i, v, rw (policy, pick_by, found, pick_least_conn), rw ij at, ok, omega arith)
      ]
