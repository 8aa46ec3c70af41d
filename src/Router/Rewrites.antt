-- ===== src/Router/Rewrites.antt =====
-- The rewrite loop of src/router.rs.
use hypershunt.Prelude.{
  ℕ, zero, suc, ◌<◌, ◌≡◌, ◌↔◌, inl, inr, refl, subst, none, some, List, arith, Option-cases,
}
use hypershunt.Router.Defs.{UriOps, Request, Location, pick_location, rewritten_by, route_loop}

module _ {Uri Regex Rest Handler : Type 0} (U : UriOps Uri Regex)
    (locs : List (Location Uri Regex Rest Handler)) where
  -- So many rewrites, each made by the location that is picked for the request at that point.
  pub data Rewrites : ℕ → Request Uri Rest → Request Uri Rest → Type 0 where
    stop : (req : Request Uri Rest) → Rewrites 0 req req
    hop :
        {n : ℕ} (req next last : Request Uri Rest) (loc : Location Uri Regex Rest Handler)
        → pick_location U locs req ≡ some loc
        → rewritten_by U loc req ≡ some next
        → Rewrites n next last
        → Rewrites (suc n) req last

  -- After fewer rewrites than the bound, the location that is picked makes no further one.
  pub record Settles (bound : ℕ) (req : Request Uri Rest) (loc : Location Uri Regex Rest Handler)
      (last : Request Uri Rest) : Type 0 where
    pub hops : ℕ
    pub short : hops < bound
    pub rewrites : Rewrites hops req last
    pub picked : pick_location U locs last ≡ some loc
    pub stays : rewritten_by U loc last ≡ none

  route_loop-Settles :
      (n : ℕ) (req : Request Uri Rest) (loc : Location Uri Regex Rest Handler)
      (last : Request Uri Rest)
      → route_loop U n locs req ≡ some (loc, last)
      → Settles n req loc last
  unfolding route_loop
  route_loop-Settles zero req loc last h = absurd (ground arith)
  route_loop-Settles (suc n) req loc last h = elim (Option-cases (pick_location U locs req)) [
    | inl p ↦ absurd (ground arith)
    | inr (l, p) ↦ elim (Option-cases (rewritten_by U l req)) [
      | inl r ↦
          let same_loc : l ≡ loc = ground arith in
          let same_req : req ≡ last = ground arith in
          subst (λ x. Settles (suc n) req x last) same_loc
            (subst (λ x. Settles (suc n) req l x) same_req
              (record {
                hops = 0;
                short = omega arith;
                rewrites = stop req;
                picked = p;
                stays = r;
              }))
      | inr (next, r) ↦
          let rest = route_loop-Settles n next loc last (ground arith) in
          record {
            hops = suc rest.hops;
            short = omega (arith, rest.short);
            rewrites = hop req next last l p r rest.rewrites;
            picked = rest.picked;
            stays = rest.stays;
          }
    ]
  ]

  Rewrites-route_loop :
      (n k : ℕ) (req last : Request Uri Rest) (loc : Location Uri Regex Rest Handler)
      → k < n
      → Rewrites k req last
      → pick_location U locs last ≡ some loc
      → rewritten_by U loc last ≡ none
      → route_loop U n locs req ≡ some (loc, last)
  unfolding route_loop
  Rewrites-route_loop zero k req last loc h w p s = absurd (omega arith)
  Rewrites-route_loop (suc n) zero req last loc h (stop _) p s = rw (p, route_loop, s) refl
  Rewrites-route_loop (suc n) (suc k) req last loc h (hop _ next _ l pl r w) p s =
      rw (pl, route_loop, r) (Rewrites-route_loop n k next last loc (omega arith) w p s)

  -- The rewrite loop answers a location and a request exactly if fewer than the bound of rewrites lead
  -- from the request to that one, each made by the location picked on the way, and the location is
  -- picked for it and rewrites no further.
  pub route_loop_iff :
      (bound : ℕ) (req : Request Uri Rest) (loc : Location Uri Regex Rest Handler)
      (last : Request Uri Rest)
      → (route_loop U bound locs req ≡ some (loc, last)) ↔ Settles bound req loc last
  route_loop_iff bound req loc last = (
    route_loop-Settles bound req loc last,
    λ s. Rewrites-route_loop bound s.hops req last loc s.short s.rewrites s.picked s.stays,
  )
