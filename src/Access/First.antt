-- ===== src/Access/First.antt =====
-- What a block of src/access.rs decides: the action of the first rule that is not passed over, with
-- the template that its constructor compiled.
use mathlib.Core.List.{append_assoc}
use hypershunt.Prelude.{
  ℕ, ◌+◌, ◌≡◌, refl, ap, ◌∙◌, ◌⊎◌, inl, inr, Bool, Option, none, some, List, [], ◌∷◌, ◌++◌, map,
  length, get_elem?, get_elem?-append_length, length-append, arith,
}
use hypershunt.Prelude.Text.{Text}
use hypershunt.Prelude.Result.{ok}
use hypershunt.Net.{IpAddr}
use hypershunt.Headers.{Part, VarNames}
use hypershunt.Headers.Build.{parse}
use hypershunt.Headers.Lossless.{compile_total}
use hypershunt.Access.Defs.{
  Principal, PredicateResult, matched, unmatched, challenge, PolicyAction, PolicyRule, PolicyBlock,
  PolicyOutcome, EvalContext,
}
use hypershunt.Access.Eval.{
  eval_rule, redirect_template, first_match, outcome_of, evaluate_from, evaluate, template_entry,
  compiled_entry, compiled_entries, assemble, new_block, with_vars,
}
use hypershunt.Access.Meaning.{
  who, resolved, resolved_fields, Leaves, Leaves-trans, Computes, rule_meaning, eval_rule-Computes,
}

-- What is decided: by a rule, by a challenge of a rule's predicate, or by default.
pub data Verdict : Type 0 where
  by_rule : PolicyAction → Verdict
  by_challenge : ℕ → Verdict
  by_default : Verdict

abbrev pub first_verdict : PolicyAction → Verdict → PredicateResult → Verdict
first_verdict action rest matched = by_rule action
first_verdict action rest (challenge code) = by_challenge code
first_verdict action rest unmatched = rest

module _ {Net : Type 0} (contains : Net → IpAddr → Bool) where
  -- The first rule whose predicate is not plainly unmatched.
  unfoldable pub verdict : IpAddr → Option Text → Principal → List (PolicyRule Net) → Verdict
  verdict peer from p [] = by_default
  verdict peer from p (rule ∷ rules) =
      let rest = verdict peer from p rules in
      first_verdict rule.action rest (rule_meaning contains peer from p rule.predicate)

-- The outcome of an action, given the template of a redirect's target.
abbrev pub action_outcome : (Text → List Part) → PolicyAction → PolicyOutcome
action_outcome template PolicyAction.allow = PolicyOutcome.allow
action_outcome template (PolicyAction.deny code) = PolicyOutcome.deny code
action_outcome template (PolicyAction.redirect to code) = PolicyOutcome.redirect (template to) code

abbrev pub verdict_outcome : (Text → List Part) → Verdict → PolicyOutcome
verdict_outcome template (by_rule action) = action_outcome template action
verdict_outcome template (by_challenge code) = PolicyOutcome.deny code
verdict_outcome template by_default = PolicyOutcome.deny 403

module _ (template : Text → List Part) where
  abbrev pub Decides : EvalContext → Verdict → PolicyOutcome × EvalContext → Type 0
  Decides ctx v out = (out.0 ≡ verdict_outcome template v) × Leaves ctx out.1

  first_match-Decides :
      (action : PolicyAction) (here : PolicyOutcome) (v : Verdict)
      (go_on : EvalContext → PolicyOutcome × EvalContext) (ctx : EvalContext) (r : PredicateResult)
      (out : PredicateResult × EvalContext)
      → here ≡ action_outcome template action
      → Computes ctx r out
      → Decides out.1 v (go_on out.1)
      → Decides ctx (first_verdict action v r) (first_match here go_on out)
  first_match-Decides action here v go_on ctx r (matched, c) a (e, l) h =
      (a ∙ ap (λ x. verdict_outcome template (first_verdict action v x)) e, l)
  first_match-Decides action here v go_on ctx r (challenge code, c) a (e, l) h =
      (ap (λ x. verdict_outcome template (first_verdict action v x)) e, l)
  first_match-Decides action here v go_on ctx r (unmatched, c) a (e, l) (f, k) = (
    f ∙ ap (λ x. verdict_outcome template (first_verdict action v x)) e,
    Leaves-trans ctx c (go_on c).1 l k,
  )

module _ (template : Text → List Part) where
  -- The table's entry for an action.
  abbrev IsEntry : PolicyAction → Option (List Part) → Type 0
  IsEntry PolicyAction.allow e = Unit
  IsEntry (PolicyAction.deny code) e = Unit
  IsEntry (PolicyAction.redirect to code) e = e ≡ some (template to)

  abbrev pub AreEntries :
      {Net : Type 0} → List (PolicyRule Net) → List (Option (List Part)) → Type 0
  AreEntries [] [] = Unit
  AreEntries [] (_ ∷ _) = ⊥
  AreEntries (_ ∷ _) [] = ⊥
  AreEntries (r ∷ rs) (e ∷ es) = IsEntry r.action e × AreEntries rs es

module _ (header_name : Text → Option Text) (template : Text → List Part) where
  outcome_of-IsEntry :
      (templates : List (Option (List Part))) (i : ℕ) (action : PolicyAction)
      (e : Option (List Part))
      → get_elem? templates i ≡ some e
      → IsEntry template action e
      → outcome_of header_name templates i action ≡ action_outcome template action
  unfolding outcome_of
  outcome_of-IsEntry templates i PolicyAction.allow e g h = refl
  outcome_of-IsEntry templates i (PolicyAction.deny code) e g h = refl
  outcome_of-IsEntry templates i (PolicyAction.redirect to code) e g h =
      rw (g, redirect_template, h)

  -- From the i-th on, the table's entries belong to the rules.
  abbrev Aligned : {Net : Type 0} → List (Option (List Part)) → ℕ → List (PolicyRule Net) → Type 0
  Aligned templates i [] = Unit
  Aligned templates i (rule ∷ rules) =
      (outcome_of header_name templates i rule.action ≡ action_outcome template rule.action)
      × Aligned templates (i + 1) rules

  pub AreEntries-Aligned :
      {Net : Type 0} (before es : List (Option (List Part))) (rules : List (PolicyRule Net)) (i : ℕ)
      → length before ≡ i
      → AreEntries template rules es
      → Aligned (before ++ es) i rules
  AreEntries-Aligned before [] [] i h a = tt
  AreEntries-Aligned before (e ∷ es) [] i h a = absurd a
  AreEntries-Aligned before [] (r ∷ rs) i h a = absurd a
  AreEntries-Aligned before (e ∷ es) (r ∷ rs) i h (a, more) = (
    outcome_of-IsEntry (before ++ e ∷ es) i r.action e (get_elem?-append_length before e es i h) a,
    rw (append_assoc before (e ∷ []) es) at (
        AreEntries-Aligned (before ++ e ∷ []) es rs (i + 1)
          (omega (arith, length-append {0} before (e ∷ []))) more),
  )

module _ (header_name : Text → Option Text) {Net : Type 0} (contains : Net → IpAddr → Bool)
    (template : Text → List Part) (templates : List (Option (List Part))) where
  abbrev verdict_in : EvalContext → List (PolicyRule Net) → Verdict
  verdict_in ctx rules = verdict contains ctx.peer ctx.country (who ctx) rules

  verdict_in-Leaves :
      (rules : List (PolicyRule Net)) (ctx ctx' : EvalContext)
      → Leaves ctx ctx'
      → verdict_in ctx' rules ≡ verdict_in ctx rules
  verdict_in-Leaves rules ctx ctx' (inl e) = rw e
  verdict_in-Leaves rules ctx ctx' (inr e) =
      let (p, c, w) = resolved_fields ctx in rw e (simp (p, c, w))

  pub evaluate_from-Decides :
      (i : ℕ) (rules : List (PolicyRule Net)) (ctx : EvalContext)
      → Aligned header_name template templates i rules
      → Decides template ctx
          (verdict_in ctx rules)
          (evaluate_from header_name contains templates i rules ctx)
  unfolding evaluate_from verdict
  evaluate_from-Decides i [] ctx a = (refl, inl refl)
  evaluate_from-Decides i (rule ∷ rules) ctx (a, more) =
      let here = eval_rule-Computes contains rule.predicate ctx in
      let next = (eval_rule contains rule.predicate ctx).1 in
      let rest = evaluate_from-Decides (i + 1) rules next more in
      first_match-Decides template rule.action _ (verdict_in ctx rules)
        (λ c. evaluate_from header_name contains templates (i + 1) rules c) ctx _ _ a here
        (rest.0 ∙ ap (verdict_outcome template) (verdict_in-Leaves rules ctx next here.1), rest.1)

module _ (header_name : Text → Option Text) where
  template_entry-IsEntry :
      (action : PolicyAction)
      → IsEntry (parse header_name) action (template_entry header_name action)
  unfolding template_entry
  template_entry-IsEntry PolicyAction.allow = tt
  template_entry-IsEntry (PolicyAction.deny code) = tt
  template_entry-IsEntry (PolicyAction.redirect to code) = refl

  -- The compiled form of a target, which exists for every target.
  abbrev pub compiled : VarNames → Text → List Part
  compiled names to = (compile_total header_name to names).0

  compiled_entry_total :
      (names : VarNames) (action : PolicyAction)
      → (e : Option (List Part)) × (compiled_entry header_name names action ≡ ok e)
        × IsEntry (compiled names) action e
  unfolding compiled_entry
  compiled_entry_total names PolicyAction.allow = (none, refl, tt)
  compiled_entry_total names (PolicyAction.deny code) = (none, refl, tt)
  compiled_entry_total names (PolicyAction.redirect to code) =
      (some (compiled names to), rw ((compile_total header_name to names).1), refl)

module _ (header_name : Text → Option Text) {Net : Type 0} (contains : Net → IpAddr → Bool) where
  new_block-AreEntries :
      (rules : List (PolicyRule Net))
      → AreEntries (parse header_name) rules (map (λ r. template_entry header_name r.action) rules)
  new_block-AreEntries [] = tt
  new_block-AreEntries (rule ∷ rules) =
      (template_entry-IsEntry header_name rule.action, new_block-AreEntries rules)

  -- A block of `new` gives the outcome of the first rule that is not passed over, for the
  -- principal that the context has or would get: a match gives the rule's action, a challenge of
  -- its predicate a denial with that code, and no rule at all 403. The context is left as it was,
  -- or with that principal resolved.
  pub evaluate-new_block :
      (rules : List (PolicyRule Net)) (ctx : EvalContext)
      → ((evaluate header_name contains (new_block header_name rules) ctx).0
          ≡ verdict_outcome
              (parse header_name)
              (verdict contains ctx.peer ctx.country (who ctx) rules))
        × (((evaluate header_name contains (new_block header_name rules) ctx).1 ≡ ctx)
            ⊎ ((evaluate header_name contains (new_block header_name rules) ctx).1 ≡ resolved ctx))
  unfolding evaluate new_block
  evaluate-new_block rules ctx =
      evaluate_from-Decides header_name contains (parse header_name) _ 0 rules ctx (
        AreEntries-Aligned header_name (parse header_name) [] _ rules 0 refl
          (new_block-AreEntries rules))

  pub compiled_entries_total :
      (names : VarNames) (rules : List (PolicyRule Net))
      → (es : List (Option (List Part))) × (compiled_entries header_name names rules ≡ ok es)
        × AreEntries (compiled header_name names) rules es
  unfolding compiled_entries
  compiled_entries_total names [] = ([], refl, tt)
  compiled_entries_total names (rule ∷ rules) =
      let (e, h, a) = compiled_entry_total header_name names rule.action in
      let (es, k, more) = compiled_entries_total names rules in (e ∷ es, rw (h, k), (a, more))

  -- With the variable table every block compiles, and gives the outcome of the first rule that is
  -- not passed over, with a redirect's target compiled against that table.
  pub evaluate-with_vars :
      (rules : List (PolicyRule Net)) (names : VarNames) (ctx : EvalContext)
      → (block : PolicyBlock Net) × (with_vars header_name rules names ≡ ok block)
        × ((evaluate header_name contains block ctx).0
            ≡ verdict_outcome
                (compiled header_name names)
                (verdict contains ctx.peer ctx.country (who ctx) rules))
  unfolding evaluate with_vars
  evaluate-with_vars rules names ctx =
      let (es, h, a) = compiled_entries_total names rules in
      (
        assemble rules es,
        rw h,
        (evaluate_from-Decides header_name contains (compiled header_name names) es 0 rules ctx
            (AreEntries-Aligned header_name (compiled header_name names) [] es rules 0 refl a)).0,
      )
