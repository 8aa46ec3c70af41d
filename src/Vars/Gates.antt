-- ===== src/Vars/Gates.antt =====
-- What the needs that src/vars.rs aggregates are good for: a variable's value depends on nothing else.
use hypershunt.Prelude.{
  ℕ, zero, suc, ◌≡◌, sym, subst, ◌∙◌, none, some, List, [], ◌∷◌, length, get_elem?, set, replicate,
  ◌==◌, arith, Bool-cases, Option-cases, inl, inr, get_elem?-set_same, get_elem?-set_other,
  get_elem?-set-some, get_elem?-replicate-none,
}
use hypershunt.Prelude.Result.{Result, ok, ◌>>=◌, bind_ok}
use hypershunt.Headers.{RequestContext}
use hypershunt.Headers.Refs.{contains_id}
use hypershunt.Vars.Defs.{RegexOps, VarTable, deps_of}
use hypershunt.Vars.Cycles.{up_from}
use hypershunt.Vars.Values.{value}
use hypershunt.Vars.Needs.{
  VarNeeds, merge, ResolvedNeeds, merge_deps, direct_needs, resolve_needs, resolve_all,
  compute_needs,
}
use hypershunt.Vars.Coverage.{Sub, Sub-refl, Sub-trans, merge-Sub}
use hypershunt.Vars.Rendering.{Each}
use hypershunt.Vars.Enough.{AgreesOn, Safe, Safe-body}

module _ {Regex : Type 0} (R : RegexOps Regex) (table : VarTable Regex) where
  AllSafe : ResolvedNeeds → Type 0
  AllSafe m = (j : ℕ) (nd : VarNeeds) → get_elem? m j ≡ some (some nd) → Safe R table nd j

  AllSafe-at :
      (m : ResolvedNeeds) (j : ℕ) (nd : VarNeeds)
      → AllSafe m
      → get_elem? m j ≡ some (some nd)
      → Safe R table nd j
  unfolding AllSafe
  AllSafe-at m j nd k e = k j nd e

  abbrev Keeps : (ℕ → ResolvedNeeds → Result (Unit {0}) (VarNeeds × ResolvedNeeds)) → Type 0
  Keeps resolve =
      (i : ℕ) (m : ResolvedNeeds) (p : VarNeeds × ResolvedNeeds)
      → resolve i m ≡ ok p
      → AllSafe m
      → Safe R table (p.0) i × AllSafe (p.1)

  merge_deps-Safe :
      (resolve : ℕ → ResolvedNeeds → Result (Unit {0}) (VarNeeds × ResolvedNeeds))
      → Keeps resolve
      → (nd : VarNeeds) (ds : List ℕ) (m : ResolvedNeeds) (p : VarNeeds × ResolvedNeeds)
      → merge_deps resolve nd ds m ≡ ok p
      → AllSafe m
      → Sub nd (p.0)
        × Each (λ j. (sub : VarNeeds) × Safe R table sub j × Sub sub (p.0)) ds
        × AllSafe (p.1)
  unfolding merge_deps contains_id
  merge_deps-Safe resolve good nd [] m p h k =
      let start : VarNeeds × ResolvedNeeds = (nd, m) in
      let same : start ≡ p = ground arith in
      subst
        (λ q.
          Sub nd (q.0)
          × Each (λ j. (sub : VarNeeds) × Safe R table sub j × Sub sub (q.0)) []
          × AllSafe (q.1))
        same (Sub-refl nd, λ j e. absurd (ground arith), k)
  merge_deps-Safe resolve good nd (d ∷ ds) m p h k =
      let (q, first, rest) =
        bind_ok (resolve d m) (λ q. merge_deps resolve (merge nd (q.0)) ds (q.1)) p h in
      let (safe, kept) = good d m q first k in
      let (below, deps, all) = merge_deps-Safe resolve good (merge nd (q.0)) ds (q.1) p rest kept in
      let (left, right) = merge-Sub nd (q.0) in
      (
        Sub-trans left below,
        λ j e. elim (Bool-cases (d == j)) [
          | inl b ↦
              let same : d ≡ j = ground arith in
              (q.0, subst (Safe R table (q.0)) same safe, Sub-trans right below)
          | inr b ↦ deps j (ground arith)
        ],
        all,
      )

  AllSafe-set :
      (m : ResolvedNeeds) (i : ℕ) (nd : VarNeeds)
      → AllSafe m
      → Safe R table nd i
      → AllSafe (set m i (some nd))
  unfolding AllSafe
  AllSafe-set m i nd h s j other e = elim (Bool-cases (i == j)) [
    | inr b ↦ h j other (sym (get_elem?-set_other m i j (some nd) b) ∙ e)
    | inl b ↦
        let same : i ≡ j = ground arith in
        let there : get_elem? (set m i (some nd)) i ≡ some (some other) =
          subst (λ x. get_elem? (set m i (some nd)) x ≡ some (some other)) (sym same) e in
        let (old, in_place) = get_elem?-set-some m i (some nd) (some other) there in
        let here = get_elem?-set_same m i old (some nd) in_place in
        let which : nd ≡ other = ground arith in
        subst (λ x. Safe R table other x) same (subst (λ x. Safe R table x i) which s)
  ]

  resolve_needs-Keeps : (fuel : ℕ) → Keeps (resolve_needs table fuel)
  unfolding resolve_needs
  resolve_needs-Keeps zero i m p h k = absurd (ground arith)
  resolve_needs-Keeps (suc fuel) i m p h k = elim (Option-cases (get_elem? m i)) [
    | inl e ↦ absurd (ground arith)
    | inr (some nd, e) ↦
        let start : VarNeeds × ResolvedNeeds = (nd, m) in
        let same : start ≡ p = ground arith in
        subst (λ q. Safe R table (q.0) i × AllSafe (q.1)) same (AllSafe-at m i nd k e, k)
    | inr (none, e) ↦
        let loop =
          merge_deps (resolve_needs table fuel) (direct_needs table i) (deps_of table i) m in
        let store : VarNeeds × ResolvedNeeds → VarNeeds × ResolvedNeeds =
          λ q. (q.0, set (q.1) i (some (q.0))) in
        let here : (loop >>= λ q. ok (store q)) ≡ ok p = ground arith in
        let (q, inside, last) = bind_ok loop (λ q. ok (store q)) p here in
        let (below, deps, all) =
          merge_deps-Safe (resolve_needs table fuel) (resolve_needs-Keeps fuel)
            (direct_needs table i) (deps_of table i) m q inside k in
        let safe = Safe-body R table (q.0) i below deps in
        let same : store q ≡ p = ground arith in
        subst (λ x. Safe R table (x.0) i × AllSafe (x.1)) same
          (safe, AllSafe-set (q.1) i (q.0) all safe)
  ]

  resolve_all-AllSafe :
      (ids : List ℕ) (m out : ResolvedNeeds)
      → resolve_all table ids m ≡ ok out
      → AllSafe m
      → AllSafe out
  unfolding resolve_all
  resolve_all-AllSafe [] m out h k = let same : m ≡ out = ground arith in subst AllSafe same k
  resolve_all-AllSafe (i ∷ ids) m out h k =
      let (p, first, rest) =
        bind_ok (resolve_needs table (length table.defs) i m) (λ p. resolve_all table ids (p.1)) out
          h in
      let (safe, kept) = resolve_needs-Keeps (length table.defs) i m p first k in
      resolve_all-AllSafe ids (p.1) out rest kept

  -- A variable's value depends on the user only if its needs name the principal, on the country only if
  -- they name GeoIP, and on no header but those that they list: two requests that agree on the needs,
  -- and on the fields that every request has, give it the same value.
  pub compute_needs-gates :
      (out : ResolvedNeeds) (i : ℕ) (nd : VarNeeds) (fuel : ℕ) (c d : RequestContext)
      → compute_needs table ≡ ok out
      → get_elem? out i ≡ some (some nd)
      → AgreesOn nd c d
      → value R table fuel c i ≡ value R table fuel d i
  unfolding compute_needs AllSafe
  compute_needs-gates out i nd fuel c d h e a =
      let n = length table.defs in
      resolve_all-AllSafe (up_from 0 n) (replicate n none) out h
        (λ j nd e. absurd (get_elem?-replicate-none n j nd e)) i nd e fuel c d a
