-- ===== src/Vars/Acyclic.antt =====
-- What the search of src/vars.rs finds: a table that passes has no chain of references that is longer
-- than its definitions, and every table without a cycle passes.
use hypershunt.Prelude.{
  ℕ, zero, suc, ◌<◌, ◌≡◌, refl, sym, ap, subst, ◌∙◌, true, some, List, [], ◌∷◌, length, get_elem?,
  replicate, ◌==◌, arith, Bool-cases, Option-cases, inl, inr, length-set, length-replicate,
  get_elem?-in_range, get_elem?-set_other,
}
use hypershunt.Prelude.Result.{Result, ok, ◌>>=◌, bind_ok}
use hypershunt.Headers.Refs.{contains_id}
use hypershunt.Vars.Defs.{VarTable, deps_of}
use hypershunt.Vars.Cycles.{
  CycleError, unvisited, on_path, done, Search, visit_all, enter, leave, up_from, cycle_dfs,
  nothing_visited, check_cycles,
}
use hypershunt.Vars.Marks.{
  count_unvisited, count_done, count_done_short, count_unvisited_short, up_from-within,
  get_elem?-replicate, contains_id-up_from, counts-enter, Ranked, Ranked-mono, AllRanked, Visited,
  Visited-none, Visited-done, Visited-then, Visited-entered,
}

module _ {Regex : Type 0} (table : VarTable Regex) where
  abbrev pub Visits : (ℕ → Search → Result CycleError Search) → Type 0
  Visits visit =
      (i : ℕ) (s t : Search) → visit i s ≡ ok t → Visited (deps_of table) s.state t.state (i ∷ [])

  visit_all-Visited :
      (visit : ℕ → Search → Result CycleError Search)
      → Visits visit
      → (ids : List ℕ) (s t : Search) → visit_all visit ids s ≡ ok t
      → Visited (deps_of table) s.state t.state ids
  unfolding visit_all
  visit_all-Visited visit good [] s t h =
      let same : s ≡ t = ground arith in
      subst (λ u. Visited (deps_of table) s.state u.state []) same
        (Visited-none (deps_of table) s.state)
  visit_all-Visited visit good (i ∷ ids) s t h =
      let (u, e, rest) = bind_ok (visit i s) (visit_all visit ids) t h in
      Visited-then (deps_of table) (good i s u e) (visit_all-Visited visit good ids u t rest)

  cycle_dfs-unvisited :
      (fuel i : ℕ) (s : Search)
      → get_elem? s.state i ≡ some unvisited
      → cycle_dfs table (suc fuel) i s
        ≡ (visit_all (cycle_dfs table fuel) (deps_of table i) (enter i s) >>= λ t. ok (leave i t))
  unfolding cycle_dfs
  cycle_dfs-unvisited fuel i s e = rw (e, cycle_dfs) refl

  cycle_dfs-Visits : (fuel : ℕ) → Visits (cycle_dfs table fuel)
  unfolding cycle_dfs enter leave
  cycle_dfs-Visits zero i s t h = absurd (ground arith)
  cycle_dfs-Visits (suc fuel) i s t h = elim (Option-cases (get_elem? s.state i)) [
    | inl e ↦ absurd (ground arith)
    | inr (done, e) ↦
        let same : s ≡ t = ground arith in
        subst (λ u. Visited (deps_of table) s.state u.state (i ∷ [])) same
          (Visited-done (deps_of table) s.state i e)
    | inr (on_path, e) ↦ absurd (ground arith)
    | inr (unvisited, e) ↦
        let body = visit_all (cycle_dfs table fuel) (deps_of table i) (enter i s) in
        let here : (body >>= λ u. ok (leave i u)) ≡ ok t =
          sym (cycle_dfs-unvisited fuel i s e) ∙ h in
        let (u, inside, last) = bind_ok body (λ u. ok (leave i u)) t here in
        let same : leave i u ≡ t = ground arith in
        subst (λ w. Visited (deps_of table) s.state w.state (i ∷ [])) same
          (Visited-entered (deps_of table) s.state u.state i e (
            visit_all-Visited (cycle_dfs table fuel) (cycle_dfs-Visits fuel) (deps_of table i)
              (enter i s) u inside))
  ]

  -- If the search passes, no chain of references is longer than the table has definitions: from any
  -- variable, every walk along references stops.
  pub check_cycles-Ranked :
      (s : Search)
      → check_cycles table ≡ ok s
      → (i : ℕ) → i < length table.defs
      → Ranked (deps_of table) (length table.defs) i
  unfolding check_cycles
  check_cycles-Ranked s h i short =
      let n = length table.defs in
      let fuel = suc n in
      let v =
        visit_all-Visited (cycle_dfs table fuel) (cycle_dfs-Visits fuel) (up_from 0 n)
          (nothing_visited table) s h in
      let fresh : AllRanked (deps_of table) (replicate n unvisited) =
        λ j e. absurd (get_elem?-replicate n j done (ground arith) e) in
      let size : length s.state ≡ n = v.size ∙ length-replicate n unvisited in
      Ranked-mono (deps_of table) (count_done s.state) n i (omega (arith, count_done_short s.state))
        (v.ranks fresh i (v.finishes i (contains_id-up_from 0 n i (omega arith) (omega arith))))

-- A number that falls along every reference, and references that stay within the table: so the table
-- has no cycle.
pub record FallsAlong {Regex : Type 0} (table : VarTable Regex) (rank : ℕ → ℕ) : Type 0 where
  pub falls : (i d : ℕ) → contains_id (deps_of table i) d ≡ true → rank d < rank i
  pub closed : (i d : ℕ) → contains_id (deps_of table i) d ≡ true → d < length table.defs

module _ {Regex : Type 0} (table : VarTable Regex) (rank : ℕ → ℕ) (f : FallsAlong table rank) where
  -- The state is one in which the call may be made: enough fuel, and nothing on the path that it could
  -- reach.
  record Ready (fuel : ℕ) (s : Search) (i : ℕ) : Type 0 where
    size : length s.state ≡ length table.defs
    enough : count_unvisited s.state < fuel
    within : i < length table.defs
    above : (j : ℕ) → get_elem? s.state j ≡ some on_path → rank i < rank j

  abbrev Passes : ℕ → Type 0
  Passes fuel =
      (s : Search) (i : ℕ) → Ready fuel s i → (t : Search) × (cycle_dfs table fuel i s ≡ ok t)

  visit_all-Passes :
      (fuel : ℕ)
      → Passes fuel
      → (ids : List ℕ) (s : Search) → ((i : ℕ) → contains_id ids i ≡ true → Ready fuel s i)
      → (t : Search) × (visit_all (cycle_dfs table fuel) ids s ≡ ok t)
  unfolding visit_all contains_id
  visit_all-Passes fuel p [] s r = (s, refl)
  visit_all-Passes fuel p (i ∷ ids) s r =
      let (u, e) = p s i (r i (ground arith)) in
      let v = cycle_dfs-Visits table fuel i s u e in
      let (t, g) = visit_all-Passes fuel p ids u (λ j c.
        let q = r j (ground arith) in
        record {
          size = v.size ∙ q.size;
          enough = omega (arith, q.enough, v.fewer);
          within = q.within;
          above = λ k h. q.above k (v.path_back k h);
        }) in
      (t, rw e g)

  cycle_dfs-Passes : (fuel : ℕ) → Passes fuel
  unfolding cycle_dfs enter
  cycle_dfs-Passes zero s i r = absurd (omega (arith, r.enough))
  cycle_dfs-Passes (suc fuel) s i r = elim (Option-cases (get_elem? s.state i)) [
    | inl e ↦ absurd (get_elem?-in_range s.state i (omega (arith, r.size, r.within)) e)
    | inr (done, e) ↦ (s, rw (e, cycle_dfs) refl)
    | inr (on_path, e) ↦ absurd (omega (arith, r.above i e))
    | inr (unvisited, e) ↦
        let (fewer, same) = counts-enter s.state i e in
        let (u, inside) =
          visit_all-Passes fuel (cycle_dfs-Passes fuel) (deps_of table i) (enter i s) (λ d c.
            record {
              size = length-set s.state i on_path ∙ r.size;
              enough = omega (arith, r.enough);
              within = f.closed i d c;
              above = λ j h. elim (Bool-cases (i == j)) [
                | inl b ↦ subst (λ k. rank d < rank k) (ground arith) (f.falls i d c)
                | inr b ↦ omega (
                  arith,
                  f.falls i d c,
                  r.above j (sym (get_elem?-set_other s.state i j on_path b) ∙ h),
                )
              ];
            }) in
        (
          leave i u,
          cycle_dfs-unvisited table fuel i s e ∙ ap (λ r. r >>= λ u. ok (leave i u)) inside,
        )
  ]

  -- A table without a cycle passes the search: it is not refused, and the fuel is enough.
  pub check_cycles-passes : (s : Search) × (check_cycles table ≡ ok s)
  unfolding check_cycles
  check_cycles-passes =
      let n = length table.defs in
      visit_all-Passes (suc n) (cycle_dfs-Passes (suc n)) (up_from 0 n) (nothing_visited table)
        (λ i c. record {
          size = length-replicate n unvisited;
          enough =
              omega (
                arith,
                count_unvisited_short (replicate n unvisited),
                length-replicate n unvisited,
              );
          within = omega (arith, up_from-within 0 n i c);
          above = λ j h. absurd (get_elem?-replicate n j on_path (ground arith) h);
        })
