-- ===== src/Router/Inlining.antt =====
-- What `inline_rules` of src/router.rs lets through for a stream listener.
use hypershunt.Prelude.{
  ℕ, ◌+◌, ◌≡◌, refl, ap, subst, ◌∙◌, Bool, true, false, Option, none, some, List, [], ◌∷◌, ◌++◌,
  All, All-append, arith, Bool-cases, Option-cases, inl, inr,
}
use hypershunt.Prelude.Text.{Text}
use hypershunt.Prelude.Result.{Result, ok, ◌>>=◌, ◌>>◌, bind_ok}
use hypershunt.Headers.{Part, find_name}
use hypershunt.Net.{IpAddr}
use hypershunt.Access.{
  Predicate, PolicyRule, PolicyBlock, PolicyOutcome, EvalContext, PredicateResult, matched,
  unmatched, challenge, eval_rule, first_match, outcome_of, evaluate_from, evaluate, new_block,
  assemble,
}
use hypershunt.Access.Meaning.{eval_predicate-needs_auth}
use hypershunt.Router.Policies.{
  PolicyRuleDef, rule, apply, PolicyError, as_rule, identifies, check_tcp_predicate,
  check_tcp_block_rules, inline_rules, resolve_block,
}

module _ {Net : Type 0} where
  abbrev pub Anonymous : List (PolicyRule Net) → Type 0
  Anonymous rules = All (λ r. identifies r.predicate ≡ false) rules

  check_tcp_block_rules-Anonymous :
      (rules : List (PolicyRule Net)) (name : Text)
      → check_tcp_block_rules rules name ≡ ok tt
      → Anonymous rules
  unfolding check_tcp_block_rules
  check_tcp_block_rules-Anonymous [] name h = tt
  check_tcp_block_rules-Anonymous (r ∷ rules) name h = elim (Bool-cases (identifies r.predicate)) [
    | inl e ↦ absurd (ground arith)
    | inr e ↦ (e, check_tcp_block_rules-Anonymous rules name (ground arith))
  ]

  -- Rules that are inlined for a stream listener contain no identity predicate, neither in the block's
  -- own rules nor in those of the policies that it applies.
  pub inline_rules-Anonymous :
      (defs : List (PolicyRuleDef Net)) (named : List (Text × List (PolicyRule Net)))
      (rules : List (PolicyRule Net))
      → inline_rules defs named true ≡ ok rules
      → Anonymous rules
  unfolding inline_rules check_tcp_predicate
  inline_rules-Anonymous [] named rules h =
      let same : [] ≡ rules = ground arith in subst Anonymous same tt
  inline_rules-Anonymous (rule predicate action ∷ rest) named rules h =
      elim (Bool-cases (identifies predicate)) [
        | inl e ↦ absurd (ground arith)
        | inr e ↦
            let after : (inline_rules rest named true >>= λ rs. ok (as_rule predicate action ∷ rs))
                ≡ ok rules =
              ground arith in
            let (rs, inside, last) =
              bind_ok (inline_rules rest named true) (λ rs. ok (as_rule predicate action ∷ rs))
                rules after in
            let same : as_rule predicate action ∷ rs ≡ rules = ground arith in
            subst Anonymous same (e, inline_rules-Anonymous rest named rs inside)
      ]
  inline_rules-Anonymous (apply name ∷ rest) named rules h =
      elim (Option-cases (find_name name named)) [
        | inl e ↦ absurd (ground arith)
        | inr (taken, e) ↦
            let checked : (check_tcp_block_rules taken name >> inlined taken) ≡ ok rules =
              ground arith in
            let (u, good, after) =
              bind_ok (check_tcp_block_rules taken name) (λ u. inlined taken) rules checked in
            let (rs, inside, last) =
              bind_ok (inline_rules rest named true) (λ rs. ok (taken ++ rs)) rules after in
            let same : taken ++ rs ≡ rules = ground arith in
            subst Anonymous same (
              All-append (λ r. identifies r.predicate ≡ false) taken rs
                (check_tcp_block_rules-Anonymous taken name good)
                (inline_rules-Anonymous rest named rs inside))
      ]
    where
      inlined : List (PolicyRule Net) → Result PolicyError (List (PolicyRule Net))
      inlined taken = inline_rules rest named true >>= λ rs. ok (taken ++ rs)

module _ (header_name : Text → Option Text) {Net : Type 0} (contains : Net → IpAddr → Bool) where
  eval_rule-Anonymous :
      (predicate : Option (Predicate Net)) (ctx : EvalContext)
      → identifies predicate ≡ false
      → (eval_rule contains predicate ctx).1 ≡ ctx
  unfolding eval_rule identifies
  eval_rule-Anonymous none ctx h = refl
  eval_rule-Anonymous (some p) ctx h = eval_predicate-needs_auth contains p ctx h

  first_match-context :
      (out : PolicyOutcome) (go_on : EvalContext → PolicyOutcome × EvalContext)
      (r : PredicateResult × EvalContext) (ctx : EvalContext)
      → r.1 ≡ ctx
      → (go_on ctx).1 ≡ ctx
      → (first_match out go_on r).1 ≡ ctx
  first_match-context out go_on (matched, c) ctx h k = h
  first_match-context out go_on (challenge code, c) ctx h k = h
  first_match-context out go_on (unmatched, c) ctx h k = ap (λ x. (go_on x).1) h ∙ k

  evaluate_from-Anonymous :
      (templates : List (Option (List Part))) (i : ℕ) (rules : List (PolicyRule Net))
      (ctx : EvalContext)
      → Anonymous rules
      → (evaluate_from header_name contains templates i rules ctx).1 ≡ ctx
  unfolding evaluate_from
  evaluate_from-Anonymous templates i [] ctx h = refl
  evaluate_from-Anonymous templates i (r ∷ rules) ctx (h, hs) =
      first_match-context (outcome_of header_name templates i r.action)
        (λ c. evaluate_from header_name contains templates (i + 1) rules c)
        (eval_rule contains r.predicate ctx) ctx (eval_rule-Anonymous r.predicate ctx h)
        (evaluate_from-Anonymous templates (i + 1) rules ctx hs)

  -- A block that is resolved for a stream listener can be evaluated without authentication: its
  -- evaluation leaves the context as it is, so it neither asks the provider nor takes a principal.
  pub resolve_block-anonymous :
      (defs : List (PolicyRuleDef Net)) (named : List (Text × List (PolicyRule Net)))
      (block : PolicyBlock Net) (ctx : EvalContext)
      → resolve_block header_name defs named true ≡ ok block
      → (evaluate header_name contains block ctx).1 ≡ ctx
  unfolding resolve_block evaluate new_block assemble
  resolve_block-anonymous defs named block ctx h =
      let (rules, inlined, last) =
        bind_ok (inline_rules defs named true) (λ rules. ok (new_block header_name rules)) block
          h in
      let same : new_block header_name rules ≡ block = ground arith in
      let templates = (new_block header_name rules).redirect_templates in
      subst (λ b. (evaluate header_name contains b ctx).1 ≡ ctx) same
        (evaluate_from-Anonymous templates 0 rules ctx
          (inline_rules-Anonymous defs named rules inlined))
