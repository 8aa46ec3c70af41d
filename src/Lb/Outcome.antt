-- ===== src/Lb/Outcome.antt =====
-- `UpstreamPool::pick` of src/lb.rs as a whole: both passes, the group and the fallback.
use hypershunt.Prelude.{
  ℕ, ◌≡◌, refl, sym, ◌∙◌, ◌⊎◌, inl, inr, true, false, Option, none, some, List, [], ◌∷◌, get_elem?,
  any, arith, if◌then◌else◌, Bool-cases, is_empty,
}
use hypershunt.Prelude.Text.{Text}
use hypershunt.Lb.Defs.{Upstream, is_available, UpstreamPool, PickCtx}
use hypershunt.Lb.Pick.{
  has_group, is_eligible, Clock, Hasher, pick_where, count_pick, finish_pick, pick_whole, or_whole,
  pick_grouped, pick,
}
use hypershunt.Lb.Choice.{Holds, pick_where_sound}
use hypershunt.Lb.Total.{IsRinged, HasRoom, pick_where_total, pick_where-Moves, IsRinged-Moves}

get_elem?-is_empty :
    (us : List Upstream) (k : ℕ) (u : Upstream) → get_elem? us k ≡ some u → is_empty us ≡ false
get_elem?-is_empty [] k u h = absurd (ground arith)
get_elem?-is_empty (v ∷ vs) k u h = refl

finish_pick_lem : (out : Option ℕ × UpstreamPool) → (finish_pick out).0 ≡ out.0
finish_pick_lem (some i, pool) = refl
finish_pick_lem (none, pool) = refl

module _ (hasher : Hasher) (ctx : PickCtx) (first second : Clock) where
  or_whole_cases :
      (out : Option ℕ × UpstreamPool)
      → ((i : ℕ) × (out.0 ≡ some i) × ((or_whole hasher ctx second out).0 ≡ some i))
        ⊎ ((out.0 ≡ none)
            × ((or_whole hasher ctx second out).0 ≡ (pick_whole hasher out.1 ctx second).0))
  or_whole_cases (some i, pool) = inl (i, refl, refl)
  or_whole_cases (none, pool) = inr (refl, refl)

  -- The upstream with an index is there, and is available in one of the two passes.
  abbrev pub IsServed : List Upstream → ℕ → Type 0
  IsServed us i =
      (u : Upstream) × (get_elem? us i ≡ some u)
      × ((is_available u first.now_ms ≡ true) ⊎ (is_available u second.now_ms ≡ true))

  pick_whole_sound :
      (pool : UpstreamPool) (i : ℕ)
      → (pick_whole hasher pool ctx second).0 ≡ some i
      → IsServed pool.upstreams i
  unfolding pick_whole is_eligible
  pick_whole_sound pool i h =
      let (u, g, e) =
        pick_where_sound hasher ctx second pool none i (sym (finish_pick_lem _) ∙ h) in
      (u, g, inr e)

  is_eligible-some :
      (now_ms : ℕ) (g : Text) (u : Upstream)
      → is_eligible now_ms (some g) u ≡ true
      → (is_available u now_ms ≡ true) × (has_group g u ≡ true)
  unfolding is_eligible
  is_eligible-some now_ms g u h = ground arith

  pick_grouped_sound :
      (group : Option Text) (pool : UpstreamPool) (i : ℕ)
      → (pick_grouped hasher group pool ctx first second).0 ≡ some i
      → IsServed pool.upstreams i
  unfolding pick_grouped
  pick_grouped_sound none pool i h = pick_whole_sound pool i h
  pick_grouped_sound (some g) pool i h = elim (Bool-cases (any (has_group g) pool.upstreams)) [
    | inr e ↦ pick_whole_sound pool i (rw e at h)
    | inl e ↦ elim (or_whole_cases (pick_where hasher pool ctx first (some g))) [
      | inl (j, found, same) ↦
          let h' = rw e at h in
          let (u, at, ok) =
            pick_where_sound hasher ctx first pool (some g) i (found ∙ sym same ∙ h') in
          (u, at, inl ((is_eligible-some first.now_ms g u ok).0))
      | inr (missed, same) ↦
          let h' = rw e at h in
          rw ((pick_where-Moves hasher ctx first pool (some g)).upstreams) at
            (pick_whole_sound _ i (sym same ∙ h'))
    ]
  ]

  -- A picked upstream is one of the pool's, of positive weight, healthy, and not ejected at the time
  -- of one of the two passes.
  pub pick_sound :
      (pool : UpstreamPool) (i : ℕ)
      → (pick hasher pool ctx first second).0 ≡ some i
      → IsServed pool.upstreams i
  unfolding pick
  pick_sound pool i h = elim (Bool-cases (is_empty pool.upstreams)) [
    | inl e ↦ absurd (ground arith)
    | inr e ↦
        pick_grouped_sound ctx.group (record pool { metrics = count_pick pool.metrics }) i
          (rw e at h)
  ]

  pick_whole_total :
      (pool : UpstreamPool) (k : ℕ)
      → IsRinged pool
      → HasRoom hasher ctx second pool
      → Holds pool.upstreams (λ u. is_available u second.now_ms) k
      → (i : ℕ) × ((pick_whole hasher pool ctx second).0 ≡ some i)
  unfolding pick_whole is_eligible
  pick_whole_total pool k ringed room h =
      let (i, found) = pick_where_total hasher ctx second pool none k ringed room h in
      (i, finish_pick_lem _ ∙ found)

  -- The pool that the pass over the whole pool finds: the group's pass, where there is one, may have
  -- moved the counter on.
  abbrev pub after_group : Option Text → UpstreamPool → UpstreamPool
  after_group none pool = pool
  after_group (some g) pool =
      if any (has_group g) pool.upstreams
      then (pick_where hasher pool ctx first (some g)).1
      else pool

  -- The same, with the pick counted and for the group that the request names.
  abbrev pub whole_pass_pool : UpstreamPool → UpstreamPool
  whole_pass_pool pool = after_group ctx.group (record pool { metrics = count_pick pool.metrics })

  pick_grouped_total :
      (group : Option Text) (pool : UpstreamPool) (k : ℕ)
      → IsRinged pool
      → HasRoom hasher ctx second (after_group group pool)
      → Holds pool.upstreams (λ u. is_available u second.now_ms) k
      → (i : ℕ) × ((pick_grouped hasher group pool ctx first second).0 ≡ some i)
  unfolding pick_grouped
  pick_grouped_total none pool k ringed room h = pick_whole_total pool k ringed room h
  pick_grouped_total (some g) pool k ringed room h =
      elim (Bool-cases (any (has_group g) pool.upstreams)) [
        | inr e ↦ rw e (pick_whole_total pool k ringed (rw e at room) h)
        | inl e ↦ elim (or_whole_cases (pick_where hasher pool ctx first (some g))) [
          | inl (j, found, same) ↦ (j, rw e same)
          | inr (missed, same) ↦
              let moves = pick_where-Moves hasher ctx first pool (some g) in
              let (i, found) =
                pick_whole_total (pick_where hasher pool ctx first (some g)).1 k
                  (IsRinged-Moves pool _ ringed moves) (rw e at room) (rw (moves.upstreams) h) in
              (i, rw e (same ∙ found))
        ]
      ]

  -- In a pool with the ring that `new` builds, a pick answers an upstream if one is available when
  -- the whole pool is tried, whatever group the request names: naming a group never makes the
  -- selection fail. The condition is that, under a policy other than `LeastConn`, the start chosen
  -- in the pass over the whole pool and the ring's length together are at most 2^64.
  pub pick_total :
      (pool : UpstreamPool) (k : ℕ)
      → IsRinged pool
      → HasRoom hasher ctx second (whole_pass_pool pool)
      → Holds pool.upstreams (λ u. is_available u second.now_ms) k
      → (i : ℕ) × ((pick hasher pool ctx first second).0 ≡ some i)
  unfolding pick
  pick_total pool k ringed room h =
      let counted = record pool { metrics = count_pick pool.metrics } in
      let (i, found) = pick_grouped_total ctx.group counted k ringed room h in
      (i, rw (get_elem?-is_empty pool.upstreams k h.0 h.1) found)
