-- ===== src/Vars/Built.antt =====
-- What a table has gone through that `build_layered` of src/vars.rs answers.
use hypershunt.Prelude.{ℕ, ◌<◌, ◌≡◌, subst, true, Option, List, length, get_elem?-some, arith}
use hypershunt.Prelude.Text.{Text}
use hypershunt.Prelude.Result.{ok, bind_ok}
use hypershunt.Headers.Refs.{contains_id}
use hypershunt.Vars.Defs.{VariableDef, RegexOps, VarTable, deps_of}
use hypershunt.Vars.Cycles.{Search, check_cycles}
use hypershunt.Vars.Build.{
  bad_references, map_err, nothing_chosen, add_layers, compile_defs, check_table, build_chosen,
  build_layered,
}
use hypershunt.Vars.Layers.{add_layers-Kept, nothing_chosen-WellNamed}
use hypershunt.Vars.Closed.{map_err_ok, compile_defs-Scoped, deps_of-IsNamed}

module _ {Regex : Type 0} (R : RegexOps Regex) (header_name : Text → Option Text) where
  -- A table that is built has passed the search for cycles, and no variable in it refers outside of it.
  pub build_layered-closed :
      (layers : List (List VariableDef)) (table : VarTable Regex)
      → build_layered R header_name layers ≡ ok table
      → ((s : Search) × (check_cycles table ≡ ok s))
        × ((i d : ℕ) → contains_id (deps_of table i) d ≡ true → d < length table.defs)
  unfolding build_layered build_chosen check_table
  build_layered-closed layers table h =
      let (c, chosen, h1) =
        bind_ok (add_layers nothing_chosen layers) (build_chosen R header_name) table h in
      let (defs, compiled, h2) =
        bind_ok (compile_defs R header_name c.chosen c.names)
          (λ defs. check_table R header_name (record { defs = defs; names = c.names })) table h1 in
      let built : VarTable Regex = record { defs = defs; names = c.names } in
      let (s, checked, h3) =
        bind_ok (map_err bad_references (check_cycles built)) (λ s. ok built) table h2 in
      let same : built ≡ table = ground arith in
      let kept = add_layers-Kept layers nothing_chosen c nothing_chosen-WellNamed chosen in
      let (size, scoped) = compile_defs-Scoped R header_name c.chosen c.names defs compiled in
      let closed : (i d : ℕ) → contains_id (deps_of built i) d ≡ true → d < length defs = λ i d k.
        let (name, g) = deps_of-IsNamed built c.names header_name scoped i d k in
        let (spec, slot, n) = kept.well_named.named name d g in
        omega (arith, get_elem?-some c.chosen d spec slot, size) in
      subst
        (λ t.
          ((s : Search) × (check_cycles t ≡ ok s))
          × ((i d : ℕ) → contains_id (deps_of t i) d ≡ true → d < length t.defs))
        same ((s, map_err_ok bad_references (check_cycles built) s checked), closed)
