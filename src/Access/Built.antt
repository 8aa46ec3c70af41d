-- ===== src/Access/Built.antt =====
-- Blocks of src/access.rs as either constructor makes them: they follow their rules.
use hypershunt.Prelude.{◌≡◌, refl, sym, ap, ◌⊎◌, inl, inr, Bool, any, Option, List, [], arith}
use hypershunt.Prelude.Text.{Text}
use hypershunt.Prelude.Result.{ok}
use hypershunt.Net.{IpAddr}
use hypershunt.Headers.{Part, VarNames}
use hypershunt.Headers.Build.{parse}
use hypershunt.Access.Defs.{PolicyRule, PolicyBlock, EvalContext}
use hypershunt.Access.Eval.{rule_needs_geoip, evaluate, assemble, new_block, with_vars}
use hypershunt.Access.Meaning.{who}
use hypershunt.Access.First.{
  verdict, Decides, evaluate_from-Decides, AreEntries, AreEntries-Aligned, compiled,
  compiled_entries_total, evaluate-new_block,
}

-- A block as either constructor makes it: `new`, or `with_vars` against a variable table.
abbrev pub IsBuilt :
    {Net : Type 0} → (Text → Option Text) → List (PolicyRule Net) → PolicyBlock Net → Type 0
IsBuilt header_name rules block =
    (block ≡ new_block header_name rules)
    ⊎ (names : VarNames) × (with_vars header_name rules names ≡ ok block)

module _ (header_name : Text → Option Text) {Net : Type 0} (contains : Net → IpAddr → Bool) where
  -- What evaluating a block in a context gives: the verdict of the rules, its redirects by a
  -- template, and the context or that context resolved.
  abbrev Follows :
      (Text → List Part) → List (PolicyRule Net) → PolicyBlock Net → EvalContext → Type 0
  Follows template rules block ctx =
      Decides template ctx (verdict contains ctx.peer ctx.country (who ctx) rules)
        (evaluate header_name contains block ctx)

  assemble-Follows :
      (rules : List (PolicyRule Net)) (names : VarNames) (es : List (Option (List Part)))
      (ctx : EvalContext)
      → AreEntries (compiled header_name names) rules es
      → Follows (compiled header_name names) rules (assemble rules es) ctx
  unfolding evaluate assemble
  assemble-Follows rules names es ctx a =
      evaluate_from-Decides header_name contains (compiled header_name names) es 0 rules ctx
        (AreEntries-Aligned header_name (compiled header_name names) [] es rules 0 refl a)

  with_vars-assemble :
      (rules : List (PolicyRule Net)) (names : VarNames) (block : PolicyBlock Net)
      → with_vars header_name rules names ≡ ok block
      → (es : List (Option (List Part))) × (assemble rules es ≡ block)
        × AreEntries (compiled header_name names) rules es
  unfolding with_vars
  with_vars-assemble rules names block h =
      let (es, compiles, a) = compiled_entries_total header_name contains names rules in
      (es, ground arith, a)

  -- Every block that a constructor made follows its rules, with one template for every context.
  pub built-Follows :
      (rules : List (PolicyRule Net)) (block : PolicyBlock Net)
      → IsBuilt header_name rules block
      → (template : (Text → List Part)) × ((ctx : EvalContext) → Follows template rules block ctx)
  built-Follows rules block (inl e) =
      (parse header_name, λ ctx. rw e (evaluate-new_block header_name contains rules ctx))
  built-Follows rules block (inr (names, h)) =
      let (es, e, a) = with_vars-assemble rules names block h in
      (compiled header_name names, λ ctx. rw (← e) (assemble-Follows rules names es ctx a))

  -- Both constructors keep the rules' need for a GeoIP lookup.
  pub built-needs_geoip :
      (rules : List (PolicyRule Net)) (block : PolicyBlock Net)
      → IsBuilt header_name rules block
      → block.needs_geoip ≡ any rule_needs_geoip rules
  unfolding new_block with_vars assemble
  built-needs_geoip rules block (inl e) = ap (λ b. b.needs_geoip) e
  built-needs_geoip rules block (inr (names, h)) =
      let (es, e, a) = with_vars-assemble rules names block h in sym (ap (λ b. b.needs_geoip) e)
