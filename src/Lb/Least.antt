-- ===== src/Lb/Least.antt =====
-- `pick_least_conn` of src/lb.rs: the choice has the least cost of all eligible upstreams.
use hypershunt.Prelude.{
  ℕ, zero, suc, ◌+◌, ◌≤◌, ◌≡◌, refl, ap, ◌∙◌, ◌⊎◌, inl, inr, Bool, true, Option, none, some, List,
  [], ◌∷◌, get_elem?, arith, Bool-cases, if◌then◌else◌,
}
use hypershunt.Lb.Defs.{Upstream}
use hypershunt.Lb.Pick.{cost, better, takes_over, least_from}

module _ (salt : ℕ) where
  -- The result of one comparison is the candidate or the best so far, whichever is cheaper.
  better-some :
      (best : Option (ℕ × ℕ)) (c i : ℕ) → (r : ℕ × ℕ) × (better salt best c i ≡ some r) × (r.0 ≤ c)
  unfolding better takes_over
  better-some none c i = ((c, i), refl, omega arith)
  better-some (some (d, j)) c i = elim (Bool-cases (takes_over salt (d, j) c i)) [
    | inl e ↦ ((c, i), rw (e, better), omega arith)
    | inr e ↦ ((d, j), rw (e, better), ground arith)
  ]

  better-le : (d j c i : ℕ) (r : ℕ × ℕ) → better salt (some (d, j)) c i ≡ some r → r.0 ≤ d
  unfolding better takes_over
  better-le d j c i r h = ground arith

  better_origin :
      (best : Option (ℕ × ℕ)) (c i : ℕ) (r : ℕ × ℕ)
      → better salt best c i ≡ some r
      → (best ≡ some r) ⊎ (r ≡ (c, i))
  unfolding better
  better_origin none c i r h = inr (ground arith)
  better_origin (some b) c i r h = elim (Bool-cases (takes_over salt b c i)) [
    | inl e ↦ inr (ground arith)
    | inr e ↦ inl (ground arith)
  ]

  module _ (eligible : Upstream → Bool) where
    -- A best so far is only replaced by one that costs no more.
    least_from-le :
        (us : List Upstream) (i d j : ℕ)
        → (r : ℕ × ℕ) × (least_from salt eligible i (some (d, j)) us ≡ some r) × (r.0 ≤ d)
    unfolding least_from
    least_from-le [] i d j = ((d, j), refl, omega arith)
    least_from-le (u ∷ us) i d j = elim (Bool-cases (eligible u)) [
      | inl e ↦
          let ((d', j'), here, low) = better-some (some (d, j)) (cost u) i in
          let (r, found, le) = least_from-le us (i + 1) d' j' in
          (r, rw (e, here) found, omega (arith, le, better-le d j (cost u) i (d', j') here))
      | inr e ↦ let (r, found, le) = least_from-le us (i + 1) d j in (r, rw e found, le)
    ]

    -- The choice costs no more than any eligible upstream; and there is one, if one is eligible.
    pub least_from-cost :
        (us : List Upstream) (i : ℕ) (best : Option (ℕ × ℕ)) (k : ℕ) (u : Upstream)
        → get_elem? us k ≡ some u
        → eligible u ≡ true
        → (r : ℕ × ℕ) × (least_from salt eligible i best us ≡ some r) × (r.0 ≤ cost u)
    unfolding least_from
    least_from-cost [] i best k u g e = absurd (ground arith)
    least_from-cost (v ∷ vs) i best zero u g e =
        let same : v ≡ u = ground arith in
        let ((d, j), here, low) = better-some best (cost u) i in
        let (r, found, le) = least_from-le vs (i + 1) d j in
        (r, rw (same, e, here) found, omega (arith, le, low))
    least_from-cost (v ∷ vs) i best (suc k) u g e =
        least_from-cost vs (i + 1) (if eligible v then better salt best (cost v) i else best) k u g
          e

    -- The choice is the best so far, or an eligible upstream at its own cost.
    pub least_from_origin :
        (us : List Upstream) (i : ℕ) (best : Option (ℕ × ℕ)) (r : ℕ × ℕ)
        → least_from salt eligible i best us ≡ some r
        → (best ≡ some r)
          ⊎ ((k : ℕ) × (u : Upstream) × (get_elem? us k ≡ some u)
              × (eligible u ≡ true)
              × (r.0 ≡ cost u)
              × (r.1 ≡ i + k))
    unfolding least_from
    least_from_origin [] i best r h = inl h
    least_from_origin (v ∷ vs) i best r h = elim (Bool-cases (eligible v)) [
      | inl e ↦ elim (least_from_origin vs (i + 1) (better salt best (cost v) i) r (ground arith)) [
        | inr (k, u, g, f, c, n) ↦ inr (suc k, u, g, f, c, omega arith)
        | inl b ↦ elim (better_origin best (cost v) i r b) [
          | inl old ↦ inl old
          | inr new ↦ inr (0, v, refl, e, ap (λ p. p.0) new, ap (λ p. p.1) new ∙ omega arith)
        ]
      ]
      | inr e ↦ elim (least_from_origin vs (i + 1) best r (ground arith)) [
        | inl b ↦ inl b
        | inr (k, u, g, f, c, n) ↦ inr (suc k, u, g, f, c, omega arith)
      ]
    ]
