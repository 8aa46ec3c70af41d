-- ===== src/Tests/Policies.antt =====
-- src/access.rs on a block of three rules: a group is admitted, a country is redirected, the rest is
-- denied.
use hypershunt.Prelude.{
  ℕ, ◌≡◌, ◌≢◌, ◌↔◌, refl, ◌⊎◌, inr, Bool, true, false, Option, none, some, List, [], ◌∷◌, arith,
  ◌==◌,
}
use hypershunt.Prelude.Text.{Text, codes, eq_text, contains_text, split_once}
use hypershunt.Prelude.Result.{ok}
use hypershunt.Net.{IpAddr, v4, v6}
use hypershunt.Headers.{VarNames, literal}
use hypershunt.Headers.Lex.{lex, lex_from, push_literal}
use hypershunt.Headers.Build.{parse, compile, build, build_tokens}
use hypershunt.Access.{
  Identity, Principal, anonymous, authenticated, Predicate, address, country, group, negated, both,
  nil, cons, matched, compiled_entries, compiled_entry, PolicyAction, PolicyRule, PolicyBlock,
  PolicyOutcome, EvalContext, new_context, new_block, with_vars, evaluate, evaluate_from, eval_rule,
  eval_predicate, outcome_of, resolve_principal, normalise, template_entry, assemble,
  rule_needs_geoip, needs_geoip, take_principal, shares_group,
}
use hypershunt.Access.Meaning.{who, resolved}
use hypershunt.Access.First.{
  verdict, verdict_outcome, compiled, evaluate-new_block, evaluate-with_vars,
}
use hypershunt.Access.Built.{IsBuilt}
use hypershunt.Access.Rules.{Yields}
use hypershunt.Access.Answers.{eval_predicate-Yields}
use hypershunt.Access.Needs.{evaluate-needs_geoip}
use hypershunt.Access.Identified.{NeverDenies401, evaluate-identified}
use hypershunt.Access.Policy.{evaluate-calls}

abbrev header_name : Text → Option Text
header_name name = some name

-- A network is one address.
abbrev same : ℕ → IpAddr → Bool
same n (v4 a) = a == n
same n (v6 a) = false

abbrev rules : List (PolicyRule ℕ)
rules =
    record { predicate = some (group (codes "ops" ∷ [])); action = PolicyAction.allow }
    ∷ record {
      predicate = some (country (codes "NZ" ∷ []));
      action = PolicyAction.redirect (codes "/nz") 302;
    }
    ∷ record { predicate = none; action = PolicyAction.deny 404 }
    ∷ []

abbrev operator : Identity
operator = record { username = codes "ada"; groups = codes "ops" ∷ [] }

abbrev known : ℕ → Principal
known n = authenticated operator

abbrev ctx : EvalContext
ctx = new_context (v4 7) none known

-- A member of the group is let in after one call of the provider; nobody else passes the first rule.
operator_passes :
    ((evaluate header_name same (new_block header_name rules) ctx).0 ≡ PolicyOutcome.allow)
    × ((evaluate header_name same
          (new_block header_name rules)
          (new_context (v4 7) none (λ n. anonymous))).0
        ≡ PolicyOutcome.deny 401)
unfolding evaluate evaluate_from new_block assemble template_entry eval_rule eval_predicate
    outcome_of new_context normalise resolve_principal shares_group contains_text eq_text
operator_passes = (refl, refl)

evaluate-new_block_example :
    ((evaluate header_name same (new_block header_name rules) ctx).0
      ≡ verdict_outcome (parse header_name) (verdict same ctx.peer ctx.country (who ctx) rules))
    × (((evaluate header_name same (new_block header_name rules) ctx).1 ≡ ctx)
        ⊎ ((evaluate header_name same (new_block header_name rules) ctx).1 ≡ resolved ctx))
evaluate-new_block_example = evaluate-new_block header_name same rules ctx

abbrev names : VarNames
names = record { names = []; index = [] }

evaluate-with_vars_example :
    (block : PolicyBlock ℕ) × (with_vars header_name rules names ≡ ok block)
    × ((evaluate header_name same block ctx).0
        ≡ verdict_outcome
            (compiled header_name names)
            (verdict same ctx.peer ctx.country (who ctx) rules))
evaluate-with_vars_example = evaluate-with_vars header_name same rules names ctx

-- The block that `with_vars` makes of the rules.
abbrev block : PolicyBlock ℕ
block = record {
  rules = rules;
  needs_geoip = true;
  redirect_templates = none ∷ some (literal (codes "/nz") ∷ []) ∷ none ∷ [];
}

block-IsBuilt : IsBuilt header_name rules block
unfolding with_vars compiled_entries compiled_entry compile build build_tokens lex lex_from
    push_literal split_once assemble rule_needs_geoip needs_geoip
block-IsBuilt = inr (names, refl)

evaluate-calls_example :
    let after = (evaluate header_name same block (new_context (v4 7) none known)).1 in
    (after.calls ≡ 0) ⊎ ((after.calls ≡ 1) × (take_principal after ≡ known 0))
evaluate-calls_example = evaluate-calls header_name same rules block (v4 7) none known block-IsBuilt

abbrev inside : Predicate ℕ
inside = both (cons (address (7 ∷ [])) (cons (negated (address (8 ∷ []))) nil))

abbrev local : List (PolicyRule ℕ)
local = record { predicate = some inside; action = PolicyAction.allow } ∷ []

abbrev local_block : PolicyBlock ℕ
local_block = record { rules = local; needs_geoip = false; redirect_templates = none ∷ [] }

local_block-IsBuilt : IsBuilt header_name local local_block
unfolding with_vars compiled_entries compiled_entry assemble rule_needs_geoip needs_geoip
local_block-IsBuilt = inr (names, refl)

evaluate-needs_geoip_example :
    (evaluate header_name same local_block ctx).0
    ≡ (evaluate header_name same local_block (record ctx { country = some (codes "NZ") })).0
evaluate-needs_geoip_example =
    evaluate-needs_geoip header_name same local local_block ctx (some (codes "NZ"))
      local_block-IsBuilt refl

no_denial : NeverDenies401 rules
no_denial = ((λ e. ground (arith, e)), ((λ e. ground (arith, e)), ((λ e. ground (arith, e)), tt)))

known_operator : who ctx ≡ authenticated operator
unfolding who resolve_principal new_context
known_operator = refl

evaluate-identified_example : (evaluate header_name same block ctx).0 ≢ PolicyOutcome.deny 401
evaluate-identified_example =
    evaluate-identified header_name same rules block ctx operator block-IsBuilt no_denial
      known_operator

-- Whoever is not an operator, an anonymous client included.
abbrev not_ops : Predicate ℕ
not_ops = both (cons (address (7 ∷ [])) (cons (negated (group (codes "ops" ∷ []))) nil))

abbrev visitor : EvalContext
visitor = new_context (v4 7) none (λ n. anonymous)

eval_predicate-Yields_example :
    (((eval_predicate same not_ops visitor).0 ≡ matched)
      ↔ Yields same visitor.peer visitor.country (who visitor) not_ops matched)
    × (((eval_predicate same not_ops visitor).1 ≡ visitor)
        ⊎ ((eval_predicate same not_ops visitor).1 ≡ resolved visitor))
eval_predicate-Yields_example = eval_predicate-Yields same not_ops visitor matched
