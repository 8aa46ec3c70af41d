-- ===== src/Lb/Scan.antt =====
-- The scan of the ring in `pick_where` of src/lb.rs: what it finds is eligible, and it misses nothing
-- unless the start wraps around.
use native.Mathlib.Decide.{ℕ_discrete}
use native.Mathlib.Nat.{mod-lt, mod-eq_of_lt, mod-add-mod, add-mod_right}
use hypershunt.Prelude.{
  ℕ, zero, suc, ◌+◌, ◌-◌, ◌%◌, ◌≤◌, ◌<◌, ◌≡◌, sym, ap, ◌∙◌, inl, inr, Bool, true, false, none, some,
  List, length, get_or, arith, leb, Bool-cases, if◌then◌else◌,
}
use hypershunt.Lb.Defs.{Upstream, add64, u64_values}
use hypershunt.Lb.Pick.{eligible_at, ring_at, scan_ring}

module _ (us : List Upstream) (eligible : Upstream → Bool) (ring : List ℕ) (start : ℕ) where
  -- What the scan finds stands in the ring and is eligible.
  pub scan_ring_sound :
      (rounds offset i : ℕ)
      → scan_ring us eligible ring start rounds offset ≡ some i
      → (o : ℕ) × (i ≡ ring_at ring start o) × (eligible_at us eligible i ≡ true)
  unfolding scan_ring
  scan_ring_sound zero offset i h = absurd (ground arith)
  scan_ring_sound (suc rounds) offset i h =
      elim (Bool-cases (eligible_at us eligible (ring_at ring start offset))) [
        | inl e ↦ (offset, ground arith, ground arith)
        | inr e ↦ scan_ring_sound rounds (offset + 1) i (ground arith)
      ]

  -- A scan that finds nothing has seen every offset fail.
  pub scan_ring-none :
      (rounds offset o : ℕ)
      → scan_ring us eligible ring start rounds offset ≡ none
      → offset ≤ o
      → o < offset + rounds
      → eligible_at us eligible (ring_at ring start o) ≡ false
  unfolding scan_ring
  scan_ring-none zero offset o h low high = absurd (omega arith)
  scan_ring-none (suc rounds) offset o h low high = elim (ℕ_discrete o offset) [
    | yes e ↦ rw e (ground arith)
    | no ne ↦ scan_ring-none rounds (offset + 1) o (ground arith) (omega arith) (omega arith)
  ]

-- The offset from a start to a position.
offset_to : ℕ → ℕ → ℕ → ℕ
offset_to n start p = if leb (start % n) p then p - start % n else p + n - start % n

offset_to-lt : (n start p : ℕ) → p < n → offset_to n start p < n
unfolding offset_to
offset_to-lt n start p h = let m : start % n < n = mod-lt start (omega arith) in ground arith

offset_to-rest : (n s p : ℕ) → s < n → p < n → (s + (if leb s p then p - s else p + n - s)) % n ≡ p
offset_to-rest n s p a b = elim (Bool-cases (leb s p)) [
  | inl e ↦ let same : s + (p - s) ≡ p = ground arith in rw (e, same) (mod-eq_of_lt b)
  | inr e ↦
      let same : s + (p + n - s) ≡ p + n = ground arith in
      rw (e, same) (add-mod_right p n ∙ mod-eq_of_lt b)
]

offset_to-mod : (n start p : ℕ) → p < n → (start + offset_to n start p) % n ≡ p
unfolding offset_to
offset_to-mod n start p h =
    sym (mod-add-mod start n (offset_to n start p))
    ∙ offset_to-rest n (start % n) p (mod-lt start (omega arith)) h

ring_at-offset_to :
    (ring : List ℕ) (start p : ℕ)
    → start + length ring ≤ u64_values
    → p < length ring
    → ring_at ring start (offset_to (length ring) start p) ≡ get_or ring p 0
unfolding ring_at
ring_at-offset_to ring start p h lt =
    let o : ℕ = offset_to (length ring) start p in
    let small : o < length ring = offset_to-lt (length ring) start p lt in
    let plain : add64 start o ≡ start + o = omega arith in
    rw plain (ap (λ q. get_or ring q 0) (offset_to-mod (length ring) start p lt))

-- Unless the start is within a ring's length of the largest number, a whole scan that finds nothing
-- has seen every position of the ring fail.
pub scan_ring_complete :
    (us : List Upstream) (eligible : Upstream → Bool) (ring : List ℕ) (start : ℕ)
    → start + length ring ≤ u64_values
    → scan_ring us eligible ring start (length ring) 0 ≡ none
    → (p : ℕ) → p < length ring
    → eligible_at us eligible (get_or ring p 0) ≡ false
scan_ring_complete us eligible ring start h none_found p lt =
    rw (ring_at-offset_to ring start p h lt) at (
      scan_ring-none us eligible ring start (length ring) 0 (offset_to (length ring) start p)
        none_found (omega arith) (omega (arith, offset_to-lt (length ring) start p lt)))
