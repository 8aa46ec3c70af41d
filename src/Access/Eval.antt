-- ===== src/Access/Eval.antt =====
-- `eval_predicate`, the constructors of a block, and `PolicyBlock::evaluate` of src/access.rs.
use hypershunt.Prelude.{
  ℕ, ◌+◌, Bool, true, false, Option, none, some, List, [], ◌∷◌, map, any, get_elem?, if◌then◌else◌,
}
use hypershunt.Prelude.Text.{Text, eq_text, contains_text}
use hypershunt.Prelude.Result.{Result, ok, ◌>>=◌}
use hypershunt.Net.{IpAddr}
use hypershunt.Headers.{Part, VarNames}
use hypershunt.Headers.Build.{parse, compile, BuildError}
use hypershunt.Access.Defs.{
  Identity, Principal, anonymous, authenticated, Predicate, Predicates, address, country, user,
  group, is_authenticated, negated, both, nil, cons, needs_geoip, PredicateResult, matched,
  unmatched, challenge, PolicyAction, PolicyRule, PolicyBlock, PolicyOutcome, EvalContext,
  resolve_principal,
}

abbrev pub match_if : Bool → PredicateResult
match_if b = if b then matched else unmatched

-- The three arms of an identity predicate.
abbrev pub match_identity : (Identity → Bool) → Principal → PredicateResult
match_identity test anonymous = challenge 401
match_identity test (authenticated id) = match_if (test id)

-- `Not`: a challenge becomes a match.
abbrev pub negate : PredicateResult → PredicateResult
negate matched = unmatched
negate unmatched = matched
negate (challenge code) = matched

unfoldable pub in_country : Option Text → List Text → Bool
in_country none codes = false
in_country (some c) codes = any (λ code. eq_text c code) codes

unfoldable pub shares_group : List Text → List Text → Bool
shares_group groups ids = any (λ g. contains_text groups g) ids

abbrev pub with_principal :
    (Principal → PredicateResult) → Principal × EvalContext → PredicateResult × EvalContext
with_principal test (p, ctx) = (test p, ctx)

-- One round of the loop of `And`: only a match goes on.
abbrev pub and_then :
    (EvalContext → PredicateResult × EvalContext)
    → PredicateResult × EvalContext
    → PredicateResult × EvalContext
and_then go_on (matched, ctx) = go_on ctx
and_then go_on (unmatched, ctx) = (unmatched, ctx)
and_then go_on (challenge code, ctx) = (challenge code, ctx)

module _ {Net : Type 0} (contains : Net → IpAddr → Bool) where
  unfoldable mutual
    pub eval_predicate : Predicate Net → EvalContext → PredicateResult × EvalContext
    eval_predicate (address nets) ctx = (match_if (any (λ n. contains n ctx.peer) nets), ctx)
    eval_predicate (country codes) ctx = (match_if (in_country ctx.country codes), ctx)
    eval_predicate is_authenticated ctx =
        with_principal (match_identity (λ id. true)) (resolve_principal ctx)
    eval_predicate (user names) ctx =
        with_principal (match_identity (λ id. contains_text names id.username))
          (resolve_principal ctx)
    eval_predicate (group groups) ctx =
        with_principal (match_identity (λ id. shares_group groups id.groups))
          (resolve_principal ctx)
    eval_predicate (negated inner) ctx =
        let (r, ctx') = eval_predicate inner ctx in (negate r, ctx')
    eval_predicate (both preds) ctx = eval_all preds ctx

    -- The loop of `And`: the first result that is no match is the answer.
    pub eval_all : Predicates Net → EvalContext → PredicateResult × EvalContext
    eval_all nil ctx = (matched, ctx)
    eval_all (cons p ps) ctx = and_then (λ c. eval_all ps c) (eval_predicate p ctx)

  unfoldable pub eval_rule : Option (Predicate Net) → EvalContext → PredicateResult × EvalContext
  unfolding eval_predicate eval_all
  eval_rule none ctx = (matched, ctx)
  eval_rule (some pred) ctx = eval_predicate pred ctx

unfoldable pub rule_needs_geoip : {Net : Type 0} → PolicyRule Net → Bool
rule_needs_geoip r = elim r.predicate [ none ↦ false | some p ↦ needs_geoip p ]

unfoldable pub assemble :
    {Net : Type 0} → List (PolicyRule Net) → List (Option (List Part)) → PolicyBlock Net
unfolding rule_needs_geoip
assemble rules templates = record {
  rules = rules;
  needs_geoip = any rule_needs_geoip rules;
  redirect_templates = templates;
}

-- One round of the loop of `evaluate`: only a rule that does not match goes on.
abbrev pub first_match :
    PolicyOutcome
    → (EvalContext → PolicyOutcome × EvalContext)
    → PredicateResult × EvalContext
    → PolicyOutcome × EvalContext
first_match out go_on (matched, ctx) = (out, ctx)
first_match out go_on (challenge code, ctx) = (PolicyOutcome.deny code, ctx)
first_match out go_on (unmatched, ctx) = go_on ctx

module _ (header_name : Text → Option Text) where
  -- The template table's entry, or the target parsed on the spot.
  unfoldable pub redirect_template : List (Option (List Part)) → ℕ → Text → List Part
  redirect_template templates i to = elim (get_elem? templates i) [
    | none ↦ parse header_name to
    | some entry ↦ elim entry [ none ↦ parse header_name to | some t ↦ t ]
  ]

  unfoldable pub outcome_of : List (Option (List Part)) → ℕ → PolicyAction → PolicyOutcome
  unfolding redirect_template
  outcome_of templates i PolicyAction.allow = PolicyOutcome.allow
  outcome_of templates i (PolicyAction.deny code) = PolicyOutcome.deny code
  outcome_of templates i (PolicyAction.redirect to code) =
      PolicyOutcome.redirect (redirect_template templates i to) code

  module _ {Net : Type 0} (contains : Net → IpAddr → Bool) where
    -- The loop of `evaluate`; `i` is the counter of `enumerate`.
    unfoldable pub evaluate_from :
        List (Option (List Part))
        → ℕ
        → List (PolicyRule Net)
        → EvalContext
        → PolicyOutcome × EvalContext
    evaluate_from templates i [] ctx = (PolicyOutcome.deny 403, ctx)
    evaluate_from templates i (rule ∷ rules) ctx =
        first_match (outcome_of templates i rule.action)
          (λ c. evaluate_from templates (i + 1) rules c) (eval_rule contains rule.predicate ctx)

    unfoldable pub evaluate : PolicyBlock Net → EvalContext → PolicyOutcome × EvalContext
    unfolding evaluate_from outcome_of eval_rule
    evaluate block ctx = evaluate_from block.redirect_templates 0 block.rules ctx

  -- `PolicyBlock::new`: the entry of the template table for a rule.
  unfoldable pub template_entry : PolicyAction → Option (List Part)
  template_entry (PolicyAction.redirect to code) = some (parse header_name to)
  template_entry PolicyAction.allow = none
  template_entry (PolicyAction.deny code) = none

  -- The same of `with_vars`, which can fail.
  unfoldable pub compiled_entry : VarNames → PolicyAction → Result BuildError (Option (List Part))
  compiled_entry names (PolicyAction.redirect to code) = do
    t ← compile header_name to names
    ok (some t)
  compiled_entry names PolicyAction.allow = ok none
  compiled_entry names (PolicyAction.deny code) = ok none

  unfoldable pub compiled_entries :
      {Net : Type 0}
      → VarNames
      → List (PolicyRule Net)
      → Result BuildError (List (Option (List Part)))
  compiled_entries names [] = ok []
  compiled_entries names (r ∷ rs) = do
    t ← compiled_entry names r.action
    ts ← compiled_entries names rs
    ok (t ∷ ts)

  unfoldable pub new_block : {Net : Type 0} → List (PolicyRule Net) → PolicyBlock Net
  unfolding assemble template_entry
  new_block rules = assemble rules (map (λ r. template_entry r.action) rules)

  unfoldable pub with_vars :
      {Net : Type 0} → List (PolicyRule Net) → VarNames → Result BuildError (PolicyBlock Net)
  unfolding assemble compiled_entries compiled_entry
  with_vars rules names = do templates ← compiled_entries names rules; ok (assemble rules templates)
