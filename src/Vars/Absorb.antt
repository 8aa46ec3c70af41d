-- ===== src/Vars/Absorb.antt =====
-- What a location aggregates over its templates with `absorb` of src/vars.rs.
use hypershunt.Prelude.{
  ℕ, ◌≡◌, subst, true, Option, some, List, [], ◌∷◌, get_elem?, ◌==◌, arith, Bool-cases, inl, inr,
}
use hypershunt.Prelude.Text.{Text}
use hypershunt.Prelude.Result.{ok}
use hypershunt.Headers.{Part, RequestContext}
use hypershunt.Headers.Refs.{contains_id, refs, render-refs}
use hypershunt.Headers.Render.{render_inner}
use hypershunt.Vars.Defs.{RegexOps, VarTable}
use hypershunt.Vars.Values.{value}
use hypershunt.Vars.Needs.{
  VarNeeds, merge, take_refs, merge_vars, absorb, ResolvedNeeds, compute_needs,
}
use hypershunt.Vars.Coverage.{Sub, Sub-refl, Sub-trans, merge-Sub, Covers-Sub, take_refs-Sub}
use hypershunt.Vars.Rendering.{Each}
use hypershunt.Vars.Enough.{AgreesOn, AgreesOn-Sub, AgreesOn-Agrees}
use hypershunt.Vars.Gates.{compute_needs-gates}

merge_vars-Sub :
    (nd : VarNeeds) (needs_of : ℕ → VarNeeds) (ids : List ℕ)
    → Sub nd (merge_vars nd needs_of ids)
      × Each (λ i. Sub (needs_of i) (merge_vars nd needs_of ids)) ids
unfolding merge_vars contains_id
merge_vars-Sub nd needs_of [] = (Sub-refl nd, λ i h. absurd (ground arith))
merge_vars-Sub nd needs_of (id ∷ ids) =
    let marked : VarNeeds = record nd { uses_vars = true } in
    let same : Sub nd marked = record { principal = λ h. h; geoip = λ h. h; headers = λ n h. h } in
    let (left, right) = merge-Sub marked (needs_of id) in
    let (kept, all) = merge_vars-Sub (merge marked (needs_of id)) needs_of ids in
    (
      Sub-trans same (Sub-trans left kept),
      λ i h. elim (Bool-cases (id == i)) [
        | inl e ↦
            let eq : id ≡ i = ground arith in
            subst (λ k. Sub (needs_of k) (merge_vars nd needs_of (id ∷ ids))) eq
              (Sub-trans right kept)
        | inr e ↦ all i (ground arith)
      ],
    )

module _ {Regex : Type 0} (R : RegexOps Regex) (table : VarTable Regex) where
  -- What a template renders to depends on no more than the needs that are aggregated over it: two
  -- requests that agree on these needs, and on the fields that every request has, get the same text,
  -- with each variable inside at its value. The needs of the variables are those that are computed
  -- for the table.
  pub absorb-gates :
      (out : ResolvedNeeds) (needs_of : ℕ → VarNeeds) (nd : VarNeeds) (t : List Part)
      (caps : Option (ℕ → Option Text)) (fuel : ℕ) (c d : RequestContext)
      → compute_needs table ≡ ok out
      → ((i : ℕ) → contains_id (refs t).vars i ≡ true → get_elem? out i ≡ some (some (needs_of i)))
      → AgreesOn (absorb nd t needs_of) c d
      → render_inner (record c { vars = value R table fuel c }) caps t
        ≡ render_inner (record d { vars = value R table fuel d }) caps t
  unfolding absorb
  absorb-gates out needs_of nd t caps fuel c d h entries a =
      let v = value R table fuel c in
      let w = value R table fuel d in
      let (below, covers) = take_refs-Sub nd (refs t) in
      let (kept, all) = merge_vars-Sub (take_refs nd (refs t)) needs_of (refs t).vars in
      let agreed =
        AgreesOn-Agrees (absorb nd t needs_of) c d v w (refs t) (Covers-Sub covers kept) a (λ i k.
          compute_needs-gates R table out i (needs_of i) fuel c d h (entries i k)
            (AgreesOn-Sub c d (all i k) a)) in
      render-refs caps (record c { vars = v }) (record d { vars = w }) t agreed
