-- ===== src/Lb/Choice.antt =====
-- One pass of `pick` in src/lb.rs, under each policy: what it answers is eligible.
use hypershunt.Prelude.{
  ℕ, ◌≡◌, inl, inr, Bool, true, Option, none, some, List, length, get_elem?, arith, Bool-cases,
  Option-cases, is_empty,
}
use hypershunt.Prelude.Text.{Text}
use hypershunt.Lb.Defs.{Upstream, LbPolicy, least_conn, UpstreamPool, PickCtx}
use hypershunt.Lb.Pick.{
  is_eligible, Clock, Hasher, choose_start, eligible_at, least_from, pick_least_conn, pick_ring,
  pick_by, pick_where,
}
use hypershunt.Lb.Scan.{scan_ring_sound}
use hypershunt.Lb.Least.{least_from_origin}

-- There is an upstream with the index, and it passes the test.
abbrev pub Holds : List Upstream → (Upstream → Bool) → ℕ → Type 0
Holds us test i = (u : Upstream) × (get_elem? us i ≡ some u) × (test u ≡ true)

eligible_at-Holds :
    (us : List Upstream) (test : Upstream → Bool) (i : ℕ)
    → eligible_at us test i ≡ true
    → Holds us test i
unfolding eligible_at
eligible_at-Holds us test i h = elim (Option-cases (get_elem? us i)) [
  | inl e ↦ absurd (ground arith)
  | inr (u, e) ↦ (u, e, ground arith)
]

pick_least_conn_sound :
    (pool : UpstreamPool) (test : Upstream → Bool) (i : ℕ)
    → (pick_least_conn pool test).0 ≡ some i
    → Holds pool.upstreams test i
unfolding pick_least_conn
pick_least_conn_sound pool test i h =
    elim (Option-cases (least_from pool.rr_counter test 0 none pool.upstreams)) [
      | inl e ↦ absurd (ground arith)
      | inr ((c, j), e) ↦
          elim (least_from_origin pool.rr_counter test pool.upstreams 0 none (c, j) e) [
            | inl b ↦ absurd (ground arith)
            | inr (k, u, g, f, same, n) ↦
                let ji : j ≡ i = ground arith in let ki : k ≡ i = omega arith in (u, rw (← ki) g, f)
          ]
    ]

module _ (hasher : Hasher) (ctx : PickCtx) (clock : Clock) where
  pick_ring_sound :
      (pool : UpstreamPool) (test : Upstream → Bool) (i : ℕ)
      → (pick_ring hasher pool ctx clock test).0 ≡ some i
      → Holds pool.upstreams test i
  unfolding pick_ring
  pick_ring_sound pool test i h = elim (Bool-cases (is_empty pool.weighted_ring)) [
    | inl e ↦ absurd (ground arith)
    | inr e ↦
        let start = (choose_start hasher pool ctx clock pool.policy).0 in
        let (o, at, ok) =
          scan_ring_sound pool.upstreams test pool.weighted_ring start (length pool.weighted_ring) 0
            i (ground arith) in
        eligible_at-Holds pool.upstreams test i ok
  ]

  pick_by_sound :
      (policy : LbPolicy) (pool : UpstreamPool) (test : Upstream → Bool) (i : ℕ)
      → (pick_by hasher policy pool ctx clock test).0 ≡ some i
      → Holds pool.upstreams test i
  unfolding pick_by
  pick_by_sound least_conn pool test i h = pick_least_conn_sound pool test i h
  pick_by_sound _ pool test i h = pick_ring_sound pool test i h

  -- What a pass picks is an upstream of the pool that is eligible in that pass.
  pub pick_where_sound :
      (pool : UpstreamPool) (group : Option Text) (i : ℕ)
      → (pick_where hasher pool ctx clock group).0 ≡ some i
      → Holds pool.upstreams (is_eligible clock.now_ms group) i
  unfolding pick_where
  pick_where_sound pool group i h = pick_by_sound pool.policy pool _ i h
