-- ===== src/Vars/Total.antt =====
-- `compute_needs` of src/vars.rs gives needs for every variable of a table that passed the search.
use hypershunt.Prelude.{
  ℕ, zero, suc, ◌≤◌, ◌<◌, ◌≡◌, refl, subst, ◌∙◌, true, Option, none, some, List, [], ◌∷◌, length,
  get_elem?, set, replicate, ◌==◌, arith, Bool-cases, Option-cases, inl, inr, length-set,
  length-replicate, get_elem?-set_same, get_elem?-set_other, get_elem?-in_range,
}
use hypershunt.Prelude.Result.{Result, ok}
use hypershunt.Headers.Refs.{contains_id}
use hypershunt.Prelude.Text.{Text}
use hypershunt.Vars.Defs.{VariableDef, RegexOps, VarTable, deps_of}
use hypershunt.Vars.Build.{build_layered}
use hypershunt.Vars.Built.{build_layered-closed}
use hypershunt.Vars.Cycles.{Search, check_cycles, up_from}
use hypershunt.Vars.Marks.{Ranked, up_from-within, contains_id-up_from}
use hypershunt.Vars.Acyclic.{check_cycles-Ranked}
use hypershunt.Vars.Needs.{
  VarNeeds, merge, ResolvedNeeds, merge_deps, direct_needs, resolve_needs, resolve_all,
  compute_needs,
}

-- The slots of the later table are as many, and what was resolved still is.
record Later (m o : ResolvedNeeds) : Type 0 where
  size : length o ≡ length m
  stays :
      (j : ℕ) (nd : VarNeeds)
      → get_elem? m j ≡ some (some nd)
      → (later : VarNeeds) × (get_elem? o j ≡ some (some later))

Later-refl : (m : ResolvedNeeds) → Later m m
Later-refl m = record { size = refl; stays = λ j nd h. (nd, h) }

Later-trans : {m o q : ResolvedNeeds} → Later m o → Later o q → Later m q
Later-trans a b = record {
  size = b.size ∙ a.size;
  stays = λ j nd h. let (x, e) = a.stays j nd h in b.stays j x e;
}

Later-set :
    (m : ResolvedNeeds) (i : ℕ) (old : Option VarNeeds) (nd : VarNeeds)
    → get_elem? m i ≡ some old
    → Later m (set m i (some nd))
Later-set m i old nd e = record {
  size = length-set m i (some nd);
  stays = λ j x h. elim (Bool-cases (i == j)) [
    | inr b ↦ (x, get_elem?-set_other m i j (some nd) b ∙ h)
    | inl b ↦
        let same : i ≡ j = ground arith in
        (
          nd,
          subst (λ k. get_elem? (set m i (some nd)) k ≡ some (some nd)) same
              (get_elem?-set_same m i old (some nd) e),
        )
  ];
}

module _ {Regex : Type 0} (table : VarTable Regex)
    (closed : (i d : ℕ) → contains_id (deps_of table i) d ≡ true → d < length table.defs) where
  -- A call that is answered, with its variable resolved.
  record Answered (r : Result (Unit {0}) (VarNeeds × ResolvedNeeds)) (i : ℕ) (m : ResolvedNeeds)
      : Type 0 where
    needs : VarNeeds
    after : ResolvedNeeds
    answer : r ≡ ok (needs, after)
    later : Later m after
    resolved : (nd : VarNeeds) × (get_elem? after i ≡ some (some nd))

  abbrev Sized : ResolvedNeeds → Type 0
  Sized m = length m ≡ length table.defs

  merge_deps-answers :
      (resolve : ℕ → ResolvedNeeds → Result (Unit {0}) (VarNeeds × ResolvedNeeds)) (nd : VarNeeds)
      (ds : List ℕ) (m : ResolvedNeeds)
      → ((d : ℕ) (o : ResolvedNeeds)
          → contains_id ds d ≡ true
          → Sized o
          → Answered (resolve d o) d o)
      → Sized m
      → (p : VarNeeds × ResolvedNeeds) × (merge_deps resolve nd ds m ≡ ok p) × Later m (p.1)
  unfolding merge_deps contains_id
  merge_deps-answers resolve nd [] m good h = ((nd, m), refl, Later-refl m)
  merge_deps-answers resolve nd (d ∷ ds) m good h =
      let a = good d m (ground arith) h in
      let (p, e, l) =
        merge_deps-answers resolve (merge nd a.needs) ds a.after
          (λ x o c s. good x o (ground arith) s) (a.later.size ∙ h) in
      (p, rw a.answer e, Later-trans a.later l)

  resolve_needs-answers :
      (k fuel i : ℕ) (m : ResolvedNeeds)
      → Ranked (deps_of table) k i
      → k ≤ fuel
      → i < length table.defs
      → Sized m
      → Answered (resolve_needs table fuel i m) i m
  unfolding resolve_needs
  resolve_needs-answers zero fuel i m r l w h = absurd r
  resolve_needs-answers (suc k) zero i m r l w h = absurd (omega arith)
  resolve_needs-answers (suc k) (suc fuel) i m r l w h = elim (Option-cases (get_elem? m i)) [
    | inl e ↦ absurd (get_elem?-in_range m i (omega arith) e)
    | inr (some nd, e) ↦ record {
      needs = nd;
      after = m;
      answer = rw (e, resolve_needs) refl;
      later = Later-refl m;
      resolved = (nd, e);
    }
    | inr (none, e) ↦
        let (p, f, later) =
          merge_deps-answers (resolve_needs table fuel) (direct_needs table i) (deps_of table i) m
            (λ d o c s. resolve_needs-answers k fuel d o (r d c) (omega arith) (closed i d c) s)
            h in
        elim (Option-cases (get_elem? (p.1) i)) [
          | inl g ↦ absurd (get_elem?-in_range (p.1) i (omega (arith, later.size)) g)
          | inr (old, g) ↦ record {
            needs = p.0;
            after = set (p.1) i (some (p.0));
            answer = rw (e, resolve_needs, f) refl;
            later = Later-trans later (Later-set (p.1) i old (p.0) g);
            resolved = (p.0, get_elem?-set_same (p.1) i old (some (p.0)) g);
          }
        ]
  ]

  resolve_all-answers :
      (ids : List ℕ) (m : ResolvedNeeds)
      → ((i : ℕ)
          → contains_id ids i ≡ true
          → Ranked (deps_of table) (length table.defs) i × (i < length table.defs))
      → Sized m
      → (o : ResolvedNeeds) × (resolve_all table ids m ≡ ok o)
        × Later m o
        × ((i : ℕ) → contains_id ids i ≡ true → (nd : VarNeeds) × (get_elem? o i ≡ some (some nd)))
  unfolding resolve_all contains_id
  resolve_all-answers [] m good h = (m, refl, Later-refl m, λ i c. absurd (ground arith))
  resolve_all-answers (d ∷ ids) m good h =
      let n = length table.defs in
      let (ranked, within) = good d (ground arith) in
      let a = resolve_needs-answers n n d m ranked (omega arith) within h in
      let (o, e, l, all) =
        resolve_all-answers ids a.after (λ i c. good i (ground arith)) (a.later.size ∙ h) in
      (
        o,
        rw a.answer e,
        Later-trans a.later l,
        λ i c. elim (Bool-cases (d == i)) [
          | inl b ↦
              let same : d ≡ i = ground arith in
              let (nd, g) = a.resolved in
              subst (λ k. (x : VarNeeds) × (get_elem? o k ≡ some (some x))) same (l.stays d nd g)
          | inr b ↦ all i (ground arith)
        ],
      )

  compute_needs-answers :
      (s : Search)
      → check_cycles table ≡ ok s
      → (out : ResolvedNeeds) × (compute_needs table ≡ ok out)
        × ((i : ℕ) → i < length table.defs → (nd : VarNeeds) × (get_elem? out i ≡ some (some nd)))
  unfolding compute_needs
  compute_needs-answers s h =
      let n = length table.defs in
      let (out, e, l, all) =
        resolve_all-answers (up_from 0 n) (replicate n none)
          (λ i c.
            let within : i < n = omega (arith, up_from-within 0 n i c) in
            (check_cycles-Ranked table s h i within, within))
          (length-replicate n none) in
      (out, e, λ i w. all i (contains_id-up_from 0 n i (omega arith) (omega arith)))

-- The needs of a table that was built are computed: no index is out of range, no recursion is cut off,
-- and every variable has its needs.
pub compute_needs_total :
    {Regex : Type 0} (R : RegexOps Regex) (header_name : Text → Option Text)
    (layers : List (List VariableDef)) (table : VarTable Regex)
    → build_layered R header_name layers ≡ ok table
    → (out : ResolvedNeeds) × (compute_needs table ≡ ok out)
      × ((i : ℕ) → i < length table.defs → (nd : VarNeeds) × (get_elem? out i ≡ some (some nd)))
compute_needs_total R header_name layers table h =
    let ((s, checked), closed) = build_layered-closed R header_name layers table h in
    compute_needs-answers table closed s checked
