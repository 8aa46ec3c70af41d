-- ===== src/Vars/Marks.antt =====
-- The marks of the search of src/vars.rs, and what visiting variables does to them.
use hypershunt.Prelude.{
  ℕ, zero, suc, ◌+◌, ◌≤◌, ◌<◌, ◌≡◌, ◌≢◌, refl, sym, ap, subst, ◌∙◌, true, false, some, List, [],
  ◌∷◌, length, get_elem?, set, replicate, ◌==◌, arith, Bool-cases, inl, inr, length-set,
  get_elem?-set_same, get_elem?-set_other,
}
use hypershunt.Headers.Refs.{contains_id}
use hypershunt.Vars.Cycles.{Mark, unvisited, on_path, done, up_from}

pub count_unvisited : List Mark → ℕ
count_unvisited [] = 0
count_unvisited (unvisited ∷ ms) = suc (count_unvisited ms)
count_unvisited (on_path ∷ ms) = count_unvisited ms
count_unvisited (done ∷ ms) = count_unvisited ms

pub count_done : List Mark → ℕ
count_done [] = 0
count_done (unvisited ∷ ms) = count_done ms
count_done (on_path ∷ ms) = count_done ms
count_done (done ∷ ms) = suc (count_done ms)

pub count_done_short : (ms : List Mark) → count_done ms ≤ length ms
unfolding count_done
count_done_short [] = omega arith
count_done_short (unvisited ∷ ms) = omega (arith, count_done_short ms)
count_done_short (on_path ∷ ms) = omega (arith, count_done_short ms)
count_done_short (done ∷ ms) = omega (arith, count_done_short ms)

-- To mark an unvisited variable as on the path takes one from the unvisited ones.
pub counts-enter :
    (ms : List Mark) (i : ℕ)
    → get_elem? ms i ≡ some unvisited
    → (suc (count_unvisited (set ms i on_path)) ≡ count_unvisited ms)
      × (count_done (set ms i on_path) ≡ count_done ms)
unfolding count_unvisited count_done
counts-enter [] i h = absurd (ground arith)
counts-enter (on_path ∷ ms) zero h = absurd (ground arith)
counts-enter (done ∷ ms) zero h = absurd (ground arith)
counts-enter (unvisited ∷ ms) zero h = (refl, refl)
counts-enter (unvisited ∷ ms) (suc i) h = let (a, b) = counts-enter ms i h in (ap suc a, b)
counts-enter (on_path ∷ ms) (suc i) h = counts-enter ms i h
counts-enter (done ∷ ms) (suc i) h = let (a, b) = counts-enter ms i h in (a, ap suc b)

pub counts-leave :
    (ms : List Mark) (i : ℕ)
    → get_elem? ms i ≡ some on_path
    → (count_unvisited (set ms i done) ≡ count_unvisited ms)
      × (count_done (set ms i done) ≡ suc (count_done ms))
unfolding count_unvisited count_done
counts-leave [] i h = absurd (ground arith)
counts-leave (unvisited ∷ ms) zero h = absurd (ground arith)
counts-leave (done ∷ ms) zero h = absurd (ground arith)
counts-leave (on_path ∷ ms) zero h = (refl, refl)
counts-leave (unvisited ∷ ms) (suc i) h = let (a, b) = counts-leave ms i h in (ap suc a, b)
counts-leave (on_path ∷ ms) (suc i) h = counts-leave ms i h
counts-leave (done ∷ ms) (suc i) h = let (a, b) = counts-leave ms i h in (a, ap suc b)

pub get_elem?-replicate :
    (n j : ℕ) (m : Mark) → m ≢ unvisited → get_elem? (replicate n unvisited) j ≢ some m
get_elem?-replicate zero j m k h = ground arith
get_elem?-replicate (suc n) zero m k h = absurd (k (ground arith))
get_elem?-replicate (suc n) (suc j) m k h = get_elem?-replicate n j m k h

pub count_unvisited_short : (ms : List Mark) → count_unvisited ms ≤ length ms
unfolding count_unvisited
count_unvisited_short [] = omega arith
count_unvisited_short (unvisited ∷ ms) = omega (arith, count_unvisited_short ms)
count_unvisited_short (on_path ∷ ms) = omega (arith, count_unvisited_short ms)
count_unvisited_short (done ∷ ms) = omega (arith, count_unvisited_short ms)

pub up_from-within : (k n i : ℕ) → contains_id (up_from k n) i ≡ true → i < k + n
unfolding contains_id
up_from-within k zero i h = absurd (ground arith)
up_from-within k (suc n) i h = elim (Bool-cases (k == i)) [
  | inl e ↦ ground arith
  | inr e ↦ omega (arith, up_from-within (suc k) n i (ground arith))
]

pub contains_id-up_from : (k n i : ℕ) → k ≤ i → i < k + n → contains_id (up_from k n) i ≡ true
unfolding contains_id
contains_id-up_from k zero i h l = absurd (omega arith)
contains_id-up_from k (suc n) i h l = elim (Bool-cases (k == i)) [
  | inl e ↦ ground arith
  | inr e ↦ ground (arith, contains_id-up_from (suc k) n i (ground arith) (omega arith))
]

module _ (deps : ℕ → List ℕ) where
  -- No chain of references from `i` is longer than the number says.
  abbrev pub Ranked : ℕ → ℕ → Type 0
  Ranked zero i = ⊥
  Ranked (suc k) i = (d : ℕ) → contains_id (deps i) d ≡ true → Ranked k d

  pub Ranked-mono : (k m i : ℕ) → k ≤ m → Ranked k i → Ranked m i
  Ranked-mono zero m i h r = absurd r
  Ranked-mono (suc k) zero i h r = absurd (omega arith)
  Ranked-mono (suc k) (suc m) i h r = λ d c. Ranked-mono k m d (omega arith) (r d c)

  abbrev pub AllRanked : List Mark → Type 0
  AllRanked ms = (j : ℕ) → get_elem? ms j ≡ some done → Ranked (count_done ms) j

  -- What a call that succeeds does to the marks, and what it has finished.
  pub record Visited (ms ns : List Mark) (ids : List ℕ) : Type 0 where
    pub fewer : count_unvisited ns ≤ count_unvisited ms
    pub more : count_done ms ≤ count_done ns
    pub size : length ns ≡ length ms
    pub path_back : (j : ℕ) → get_elem? ns j ≡ some on_path → get_elem? ms j ≡ some on_path
    pub keeps_path : (j : ℕ) → get_elem? ms j ≡ some on_path → get_elem? ns j ≡ some on_path
    pub keeps_done : (j : ℕ) → get_elem? ms j ≡ some done → get_elem? ns j ≡ some done
    pub finishes : (j : ℕ) → contains_id ids j ≡ true → get_elem? ns j ≡ some done
    pub ranks : AllRanked ms → AllRanked ns

  pub Visited-none : (ms : List Mark) → Visited ms ms []
  unfolding contains_id
  Visited-none ms = record {
    fewer = omega arith;
    more = omega arith;
    size = refl;
    path_back = λ j h. h;
    keeps_path = λ j h. h;
    keeps_done = λ j h. h;
    finishes = λ j h. absurd (ground arith);
    ranks = λ h. h;
  }

  pub Visited-done : (ms : List Mark) (i : ℕ) → get_elem? ms i ≡ some done → Visited ms ms (i ∷ [])
  unfolding contains_id
  Visited-done ms i e = record {
    fewer = omega arith;
    more = omega arith;
    size = refl;
    path_back = λ j h. h;
    keeps_path = λ j h. h;
    keeps_done = λ j h. h;
    finishes = λ j h. ground arith;
    ranks = λ h. h;
  }

  pub Visited-then :
      {ms ns os : List Mark} {i : ℕ} {ids : List ℕ}
      → Visited ms ns (i ∷ [])
      → Visited ns os ids
      → Visited ms os (i ∷ ids)
  unfolding contains_id
  Visited-then {i} {ids} a b = record {
    fewer = omega (arith, a.fewer, b.fewer);
    more = omega (arith, a.more, b.more);
    size = b.size ∙ a.size;
    path_back = λ j h. a.path_back j (b.path_back j h);
    keeps_path = λ j h. b.keeps_path j (a.keeps_path j h);
    keeps_done = λ j h. b.keeps_done j (a.keeps_done j h);
    finishes = λ j h. elim (Bool-cases (i == j)) [
      | inl e ↦ b.keeps_done j (a.finishes j (ground arith))
      | inr e ↦ b.finishes j (ground arith)
    ];
    ranks = λ h. b.ranks (a.ranks h);
  }

  -- A variable is entered, what it refers to is visited, and it is left.
  module _ (ms ns : List Mark) (i : ℕ) (e : get_elem? ms i ≡ some unvisited)
      (v : Visited (set ms i on_path) ns (deps i)) where
    entered : get_elem? ns i ≡ some on_path
    entered = v.keeps_path i (get_elem?-set_same ms i unvisited on_path e)

    other_mark : (j : ℕ) (m : Mark) → m ≢ unvisited → get_elem? ms j ≡ some m → (i == j) ≡ false
    other_mark j m n h = elim (Bool-cases (i == j)) [
      | inr d ↦ d
      | inl d ↦
          let same : i ≡ j = ground arith in
          let here : get_elem? ms i ≡ some m = subst (λ k. get_elem? ms k ≡ some m) (sym same) h in
          absurd (n (cc (here, e)))
    ]

    keeps :
        (j : ℕ) (m : Mark)
        → m ≢ unvisited
        → get_elem? ms j ≡ some m
        → ((k : ℕ) → get_elem? (set ms i on_path) k ≡ some m → get_elem? ns k ≡ some m)
        → get_elem? (set ns i done) j ≡ some m
    keeps j m n h k =
        let apart = other_mark j m n h in
        get_elem?-set_other ns i j done apart ∙ k j (get_elem?-set_other ms i j on_path apart ∙ h)

    path_inside :
        (j : ℕ) → get_elem? (set ns i done) j ≡ some on_path → get_elem? ms j ≡ some on_path
    path_inside j h = elim (Bool-cases (i == j)) [
      | inr d ↦
          sym (get_elem?-set_other ms i j on_path d)
          ∙ v.path_back j (sym (get_elem?-set_other ns i j done d) ∙ h)
      | inl d ↦
          let same : i ≡ j = ground arith in
          let here : get_elem? (set ns i done) i ≡ some on_path =
            subst (λ k. get_elem? (set ns i done) k ≡ some on_path) (sym same) h in
          let marked = get_elem?-set_same ns i on_path done entered in absurd (ground arith)
    ]

    ranks_inside : AllRanked ms → AllRanked ns
    ranks_inside r = v.ranks (λ j h. elim (Bool-cases (i == j)) [
      | inr d ↦
          let (a, b) = counts-enter ms i e in
          subst (λ k. Ranked k j) (sym b) (r j (sym (get_elem?-set_other ms i j on_path d) ∙ h))
      | inl d ↦
          let same : i ≡ j = ground arith in
          let here : get_elem? (set ms i on_path) i ≡ some done =
            subst (λ k. get_elem? (set ms i on_path) k ≡ some done) (sym same) h in
          let marked = get_elem?-set_same ms i unvisited on_path e in absurd (ground arith)
    ])

    pub Visited-entered : Visited ms (set ns i done) (i ∷ [])
    unfolding contains_id
    Visited-entered =
        let (a, b) = counts-enter ms i e in
        let (c, d) = counts-leave ns i entered in
        record {
          fewer = omega (arith, v.fewer);
          more = omega (arith, v.more);
          size = length-set ns i done ∙ v.size ∙ length-set ms i on_path;
          path_back = path_inside;
          keeps_path = λ j h. keeps j on_path (ground arith) h v.keeps_path;
          keeps_done = λ j h. keeps j done (ground arith) h v.keeps_done;
          finishes = λ j h.
              let same : i ≡ j = ground arith in
              subst (λ k. get_elem? (set ns i done) k ≡ some done) same
                (get_elem?-set_same ns i on_path done entered);
          ranks = λ r j h. elim (Bool-cases (i == j)) [
            | inl e2 ↦
                let same : i ≡ j = ground arith in
                subst (λ k. Ranked (count_done (set ns i done)) k) same
                  (subst (λ k. Ranked k i) (sym d) (λ x y. ranks_inside r x (v.finishes x y)))
            | inr e2 ↦
                Ranked-mono (count_done ns) (count_done (set ns i done)) j (omega arith)
                  (ranks_inside r j (sym (get_elem?-set_other ns i j done e2) ∙ h))
          ];
        }
