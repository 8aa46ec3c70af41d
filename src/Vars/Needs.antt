-- ===== src/Vars/Needs.antt =====
-- `VarNeeds`, `compute_needs` and `resolve_needs` of src/vars.rs.
use hypershunt.Prelude.{
  ℕ, zero, suc, Bool, true, false, ◌||◌, not, Option, none, some, List, [], ◌∷◌, ◌++◌, length,
  get_elem?, set, replicate, is_empty, if◌then◌else◌,
}
use hypershunt.Prelude.Text.{Text, contains_text}
use hypershunt.Prelude.Result.{Result, ok, err, ◌>>=◌}
use hypershunt.Headers.{Part}
use hypershunt.Headers.Refs.{TemplateRefs, refs}
use hypershunt.Vars.Defs.{VarTable, templates, deps_of}
use hypershunt.Vars.Cycles.{up_from}

pub record VarNeeds : Type 0 where
  pub principal : Bool
  pub geoip : Bool
  pub headers : List Text
  pub uses_vars : Bool

abbrev pub no_needs : VarNeeds
no_needs = record { principal = false; geoip = false; headers = []; uses_vars = false }

unfoldable pub add_headers : List Text → List Text → List Text
unfolding contains_text
add_headers hs [] = hs
add_headers hs (h ∷ rest) = add_headers (if contains_text hs h then hs else hs ++ h ∷ []) rest

unfoldable pub merge : VarNeeds → VarNeeds → VarNeeds
unfolding add_headers
merge nd other = record {
  principal = nd.principal || other.principal;
  geoip = nd.geoip || other.geoip;
  headers = add_headers nd.headers other.headers;
  uses_vars = nd.uses_vars || other.uses_vars;
}

unfoldable pub any_needs : VarNeeds → Bool
any_needs nd = nd.principal || (nd.geoip || (nd.uses_vars || not (is_empty nd.headers)))

-- `take` of `compute_needs`.
unfoldable pub take_refs : VarNeeds → TemplateRefs → VarNeeds
unfolding add_headers
take_refs nd r = record nd {
  principal = nd.principal || r.principal;
  geoip = nd.geoip || r.geoip;
  headers = add_headers nd.headers r.headers;
}

-- The loop of `absorb` over a template's variables.
unfoldable pub merge_vars : VarNeeds → (ℕ → VarNeeds) → List ℕ → VarNeeds
unfolding merge
merge_vars nd needs_of [] = nd
merge_vars nd needs_of (id ∷ ids) =
    merge_vars (merge (record nd { uses_vars = true }) (needs_of id)) needs_of ids

unfoldable pub absorb : VarNeeds → List Part → (ℕ → VarNeeds) → VarNeeds
unfolding take_refs merge_vars refs
absorb nd t needs_of = merge_vars (take_refs nd (refs t)) needs_of (refs t).vars

unfoldable pub take_templates : VarNeeds → List (List Part) → VarNeeds
unfolding take_refs refs
take_templates nd [] = nd
take_templates nd (t ∷ ts) = take_templates (take_refs nd (refs t)) ts

-- The needs of the variables that are resolved; the error is an index out of range, or a recursion
-- that is cut off.
abbrev pub ResolvedNeeds : Type 0
ResolvedNeeds = List (Option VarNeeds)

-- The loop over the dependencies; `resolve` stands for the call of `resolve_needs`.
unfoldable pub merge_deps :
    (ℕ → ResolvedNeeds → Result (Unit {0}) (VarNeeds × ResolvedNeeds))
    → VarNeeds
    → List ℕ
    → ResolvedNeeds
    → Result (Unit {0}) (VarNeeds × ResolvedNeeds)
unfolding merge
merge_deps resolve nd [] resolved = ok (nd, resolved)
merge_deps resolve nd (d ∷ ds) resolved =
    resolve d resolved >>= λ p. merge_deps resolve (merge nd (p.0)) ds (p.1)

module _ {Regex : Type 0} (table : VarTable Regex) where
  unfoldable pub direct_needs : ℕ → VarNeeds
  unfolding take_templates templates
  direct_needs i = elim (get_elem? table.defs i) [
    | some def ↦ take_templates no_needs (templates def.body)
    | none ↦ no_needs
  ]

  unfoldable pub resolve_needs :
      ℕ → ℕ → ResolvedNeeds → Result (Unit {0}) (VarNeeds × ResolvedNeeds)
  unfolding merge_deps direct_needs
  resolve_needs zero i resolved = err tt
  resolve_needs (suc fuel) i resolved =
      let computed =
        merge_deps (resolve_needs fuel) (direct_needs i) (deps_of table i) resolved >>= λ p.
        ok (p.0, set (p.1) i (some (p.0))) in
      elim (get_elem? resolved i) [
        | none ↦ err tt
        | some (some nd) ↦ ok (nd, resolved)
        | some none ↦ computed
      ]

  unfoldable pub resolve_all : List ℕ → ResolvedNeeds → Result (Unit {0}) ResolvedNeeds
  unfolding resolve_needs
  resolve_all [] resolved = ok resolved
  resolve_all (i ∷ rest) resolved =
      resolve_needs (length table.defs) i resolved >>= λ p. resolve_all rest (p.1)

  unfoldable pub compute_needs : Result (Unit {0}) ResolvedNeeds
  unfolding resolve_all
  compute_needs = resolve_all (up_from 0 (length table.defs)) (replicate (length table.defs) none)
