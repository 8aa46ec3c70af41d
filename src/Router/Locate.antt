-- ===== src/Router/Locate.antt =====
-- The location that src/router.rs picks: the one with the longest path, and the first of these.
use hypershunt.Prelude.{
  ℕ, suc, ◌≤◌, ◌<◌, ◌≡◌, refl, sym, ap, subst, ◌∙◌, true, false, ◌&&◌, Option, none, some, List, [],
  ◌∷◌, length, All, leb, if◌then◌else◌, arith, Bool-cases, inl, inr,
}
use hypershunt.Prelude.Text.{Text}
use hypershunt.Router.Defs.{
  UriOps, Request, Location, starts_with, candidates, precedes, insert_sorted, sort_candidates,
  accepts, first_accepting, pick_location,
}

module _ {Uri Regex Rest Handler : Type 0} where
  abbrev pub longer :
      Location Uri Regex Rest Handler
      → Option (Location Uri Regex Rest Handler)
      → Location Uri Regex Rest Handler
  longer loc none = loc
  longer loc (some best) = if leb (length best.path) (length loc.path) then loc else best

  -- A location applies if its path is a prefix of the request's and its matcher accepts the request.
  -- The longest path wins, and of equally long ones the first.
  unfoldable pub best_location :
      Text
      → Request Uri Rest
      → List (Location Uri Regex Rest Handler)
      → Option (Location Uri Regex Rest Handler)
  unfolding starts_with accepts
  best_location path req [] = none
  best_location path req (loc ∷ locs) =
      let best = best_location path req locs in
      if starts_with path loc.path && accepts req loc then some (longer loc best) else best

  -- Every index is at least so much.
  abbrev From : ℕ → List (ℕ × Location Uri Regex Rest Handler) → Type 0
  From i bs = All (λ b. i ≤ b.0) bs

  abbrev Within : ℕ → List (ℕ × Location Uri Regex Rest Handler) → Type 0
  Within n bs = All (λ b. length (b.1).path ≤ n) bs

  -- No path is longer than one before it.
  abbrev Descending : List (ℕ × Location Uri Regex Rest Handler) → Type 0
  Descending [] = Unit
  Descending (a ∷ rest) = Within (length (a.1).path) rest × Descending rest

  candidates-From :
      (path : Text) (i k : ℕ) (locs : List (Location Uri Regex Rest Handler))
      → k ≤ i
      → From k (candidates path i locs)
  unfolding candidates
  candidates-From path i k [] h = tt
  candidates-From path i k (loc ∷ locs) h = elim (Bool-cases (starts_with path loc.path)) [
    | inl e ↦ rw e (h, candidates-From path (suc i) k locs (omega arith))
    | inr e ↦ rw e (candidates-From path (suc i) k locs (omega arith))
  ]

  insert_sorted-From :
      (i : ℕ) (a : ℕ × Location Uri Regex Rest Handler)
      (bs : List (ℕ × Location Uri Regex Rest Handler))
      → i ≤ a.0
      → From i bs
      → From i (insert_sorted a bs)
  unfolding insert_sorted
  insert_sorted-From i a [] h k = (h, tt)
  insert_sorted-From i a (b ∷ bs) h (k, ks) = elim (Bool-cases (precedes a b)) [
    | inl e ↦ rw e (h, (k, ks))
    | inr e ↦ rw e (k, insert_sorted-From i a bs h ks)
  ]

  sort_candidates-From :
      (i : ℕ) (bs : List (ℕ × Location Uri Regex Rest Handler))
      → From i bs
      → From i (sort_candidates bs)
  unfolding sort_candidates
  sort_candidates-From i [] h = tt
  sort_candidates-From i (b ∷ bs) (h, hs) =
      insert_sorted-From i b (sort_candidates bs) h (sort_candidates-From i bs hs)

  Within-mono :
      (m n : ℕ) (bs : List (ℕ × Location Uri Regex Rest Handler))
      → m ≤ n
      → Within m bs
      → Within n bs
  Within-mono m n [] h k = tt
  Within-mono m n (b ∷ bs) h (k, ks) = (omega arith, Within-mono m n bs h ks)

  insert_sorted-Within :
      (n : ℕ) (a : ℕ × Location Uri Regex Rest Handler)
      (bs : List (ℕ × Location Uri Regex Rest Handler))
      → length (a.1).path ≤ n
      → Within n bs
      → Within n (insert_sorted a bs)
  unfolding insert_sorted
  insert_sorted-Within n a [] h k = (h, tt)
  insert_sorted-Within n a (b ∷ bs) h (k, ks) = elim (Bool-cases (precedes a b)) [
    | inl e ↦ rw e (h, (k, ks))
    | inr e ↦ rw e (k, insert_sorted-Within n a bs h ks)
  ]

  precedes-length :
      (a b : ℕ × Location Uri Regex Rest Handler)
      → precedes a b ≡ true
      → length (b.1).path ≤ length (a.1).path
  unfolding precedes
  precedes-length a b h = ground arith

  follows-length :
      (a b : ℕ × Location Uri Regex Rest Handler)
      → a.0 ≤ b.0
      → precedes a b ≡ false
      → length (a.1).path < length (b.1).path
  unfolding precedes
  follows-length a b k h = ground arith

  insert_sorted-Descending :
      (a : ℕ × Location Uri Regex Rest Handler) (bs : List (ℕ × Location Uri Regex Rest Handler))
      → From (a.0) bs
      → Descending bs
      → Descending (insert_sorted a bs)
  unfolding insert_sorted
  insert_sorted-Descending a [] f d = (tt, tt)
  insert_sorted-Descending a (b ∷ bs) (f, fs) (w, d) = elim (Bool-cases (precedes a b)) [
    | inl e ↦
        let shorter = precedes-length a b e in
        rw e ((shorter, Within-mono (length (b.1).path) (length (a.1).path) bs shorter w), (w, d))
    | inr e ↦
        let shorter = follows-length a b f e in
        rw e (
          insert_sorted-Within (length (b.1).path) a bs (omega arith) w,
          insert_sorted-Descending a bs fs d,
        )
  ]

  first_accepting-Within :
      (req : Request Uri Rest) (n : ℕ) (bs : List (ℕ × Location Uri Regex Rest Handler))
      → Within n bs
      → (y : Location Uri Regex Rest Handler) → first_accepting req bs ≡ some y
      → length y.path ≤ n
  unfolding first_accepting
  first_accepting-Within req n [] w y h = absurd (ground arith)
  first_accepting-Within req n ((i, loc) ∷ bs) (w, ws) y h = elim (Bool-cases (accepts req loc)) [
    | inl e ↦ let same : loc ≡ y = ground arith in subst (λ l. length l.path ≤ n) same w
    | inr e ↦ first_accepting-Within req n bs ws y (ground arith)
  ]

  longer-Within :
      (loc : Location Uri Regex Rest Handler) (best : Option (Location Uri Regex Rest Handler))
      → ((y : Location Uri Regex Rest Handler) → best ≡ some y → length y.path ≤ length loc.path)
      → longer loc best ≡ loc
  longer-Within loc none h = refl
  longer-Within loc (some y) h =
      let long : leb (length y.path) (length loc.path) ≡ true = ground (arith, h y refl) in
      rw long refl

  -- The candidate that is inserted is taken if it is accepted and no accepted one is longer.
  first_accepting-insert_sorted :
      (req : Request Uri Rest) (i : ℕ) (loc : Location Uri Regex Rest Handler)
      (bs : List (ℕ × Location Uri Regex Rest Handler))
      → From i bs
      → Descending bs
      → first_accepting req (insert_sorted (i, loc) bs) ≡ (
          if accepts req loc
          then some (longer loc (first_accepting req bs))
          else first_accepting req bs)
  unfolding first_accepting insert_sorted
  first_accepting-insert_sorted req i loc [] f d = refl
  first_accepting-insert_sorted req i loc ((j, other) ∷ bs) (f, fs) (w, d) =
      elim (Bool-cases (precedes (i, loc) (j, other))) [
        | inl e ↦
            let shorter = precedes-length (i, loc) (j, other) e in
            let top = longer-Within loc (first_accepting req ((j, other) ∷ bs)) (
              first_accepting-Within req (length loc.path) ((j, other) ∷ bs)
                (shorter, Within-mono (length other.path) (length loc.path) bs shorter w)) in
            elim (Bool-cases (accepts req loc)) [
              | inl c ↦ rw (e, c) (ap some (sym top))
              | inr c ↦ rw (e, c) refl
            ]
        | inr e ↦
            let longer_path = follows-length (i, loc) (j, other) f e in
            let inside = first_accepting-insert_sorted req i loc bs fs d in
            let kept : leb (length other.path) (length loc.path) ≡ false = ground arith in
            elim (Bool-cases (accepts req other)) [
              | inl c ↦ elim (Bool-cases (accepts req loc)) [
                | inl c2 ↦ rw (e, c, c2, kept) refl
                | inr c2 ↦ rw (e, c, c2) refl
              ]
              | inr c ↦ rw (e, c) inside
            ]
      ]

  sort_candidates-Descending :
      (path : Text) (i : ℕ) (locs : List (Location Uri Regex Rest Handler))
      → Descending (sort_candidates (candidates path i locs))
  unfolding sort_candidates candidates
  sort_candidates-Descending path i [] = tt
  sort_candidates-Descending path i (loc ∷ locs) = elim (Bool-cases (starts_with path loc.path)) [
    | inl e ↦ rw e (
        insert_sorted-Descending (i, loc) (sort_candidates (candidates path (suc i) locs))
          (sort_candidates-From i (candidates path (suc i) locs)
            (candidates-From path (suc i) i locs (omega arith)))
          (sort_candidates-Descending path (suc i) locs))
    | inr e ↦ rw e (sort_candidates-Descending path (suc i) locs)
  ]

  first_accepting-best_location :
      (path : Text) (req : Request Uri Rest) (i : ℕ) (locs : List (Location Uri Regex Rest Handler))
      → first_accepting req (sort_candidates (candidates path i locs)) ≡ best_location path req locs
  unfolding sort_candidates candidates first_accepting best_location
  first_accepting-best_location path req i [] = refl
  first_accepting-best_location path req i (loc ∷ locs) =
      let inside = first_accepting-best_location path req (suc i) locs in
      elim (Bool-cases (starts_with path loc.path)) [
        | inr e ↦ rw e inside
        | inl e ↦ rw e (
            first_accepting-insert_sorted req i loc (sort_candidates (candidates path (suc i) locs))
              (sort_candidates-From i (candidates path (suc i) locs)
                (candidates-From path (suc i) i locs (omega arith)))
              (sort_candidates-Descending path (suc i) locs)
            ∙ ap (λ o. if accepts req loc then some (longer loc o) else o) inside)
      ]

module _ {Uri Regex Rest Handler : Type 0} (U : UriOps Uri Regex) where
  -- The location that is picked for a request is the one with the longest path among those whose path
  -- is a prefix of the request's and whose matcher accepts it, and the first of these if several are
  -- equally long; none is picked exactly if none applies.
  pub pick_location-best_location :
      (locs : List (Location Uri Regex Rest Handler)) (req : Request Uri Rest)
      → pick_location U locs req ≡ best_location (U.uri_path req.uri) req locs
  unfolding pick_location
  pick_location-best_location locs req =
      first_accepting-best_location (U.uri_path req.uri) req 0 locs
