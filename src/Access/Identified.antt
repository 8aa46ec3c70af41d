-- ===== src/Access/Identified.antt =====
-- Challenges in src/access.rs: an identified client gets none.
use hypershunt.Prelude.{
  ℕ, ◌≡◌, ◌≢◌, refl, sym, ap, ◌∙◌, Bool, true, false, Option, none, some, List, [], ◌∷◌, arith,
}
use hypershunt.Prelude.Text.{Text}
use hypershunt.Net.{IpAddr}
use hypershunt.Access.Defs.{
  Identity, Principal, authenticated, Predicate, Predicates, address, country, user, group,
  is_authenticated, negated, both, nil, cons, PredicateResult, matched, unmatched, challenge,
  PolicyAction, PolicyRule, PolicyBlock, PolicyOutcome, EvalContext,
}
use hypershunt.Access.Eval.{match_if, negate, evaluate}
use hypershunt.Access.Meaning.{meaning, meaning_all, rule_meaning, then_also, who}
use hypershunt.Access.First.{
  Verdict, verdict, verdict_outcome, by_challenge, by_rule, by_default, first_verdict,
}
use hypershunt.Access.Built.{IsBuilt, built-Follows}
use hypershunt.Headers.{Part}

abbrev IsDecided : PredicateResult → Type 0
IsDecided matched = Unit
IsDecided unmatched = Unit
IsDecided (challenge code) = ⊥

negate-IsDecided : (r : PredicateResult) → IsDecided r → IsDecided (negate r)
negate-IsDecided matched h = tt
negate-IsDecided unmatched h = tt
negate-IsDecided (challenge code) h = tt

then_also-IsDecided :
    (r s : PredicateResult) → IsDecided r → IsDecided s → IsDecided (then_also r s)
then_also-IsDecided matched s h k = k
then_also-IsDecided unmatched s h k = tt
then_also-IsDecided (challenge code) s h k = h

match_if-IsDecided : (b : Bool) → IsDecided (match_if b)
match_if-IsDecided true = tt
match_if-IsDecided false = tt

module _ {Net : Type 0} (contains : Net → IpAddr → Bool) (peer : IpAddr) (from : Option Text)
    (id : Identity) where
  mutual
    unfolding meaning meaning_all

    meaning-IsDecided :
        (pred : Predicate Net) → IsDecided (meaning contains peer from (authenticated id) pred)
    meaning-IsDecided (address nets) = match_if-IsDecided _
    meaning-IsDecided (country codes) = match_if-IsDecided _
    meaning-IsDecided is_authenticated = tt
    meaning-IsDecided (user names) = match_if-IsDecided _
    meaning-IsDecided (group groups) = match_if-IsDecided _
    meaning-IsDecided (negated q) = negate-IsDecided _ (meaning-IsDecided q)
    meaning-IsDecided (both qs) = meaning_all-IsDecided qs

    meaning_all-IsDecided :
        (preds : Predicates Net)
        → IsDecided (meaning_all contains peer from (authenticated id) preds)
    meaning_all-IsDecided nil = tt
    meaning_all-IsDecided (cons q qs) =
        then_also-IsDecided _ _ (meaning-IsDecided q) (meaning_all-IsDecided qs)

  first_verdict-ne-by_challenge :
      (rule : PolicyRule Net) (rest : Verdict) (r : PredicateResult) (code : ℕ)
      → IsDecided r
      → rest ≢ by_challenge code
      → first_verdict rule.action rest r ≢ by_challenge code
  first_verdict-ne-by_challenge rule rest matched code d h = ground arith
  first_verdict-ne-by_challenge rule rest unmatched code d h = h
  first_verdict-ne-by_challenge rule rest (challenge c) code d h = absurd d

  rule_meaning-IsDecided :
      (pred : Option (Predicate Net))
      → IsDecided (rule_meaning contains peer from (authenticated id) pred)
  unfolding rule_meaning
  rule_meaning-IsDecided none = tt
  rule_meaning-IsDecided (some pred) = meaning-IsDecided pred

  -- A client whose identity is known is never challenged, whatever the rules.
  pub verdict_identified :
      (rules : List (PolicyRule Net)) (code : ℕ)
      → verdict contains peer from (authenticated id) rules ≢ by_challenge code
  unfolding verdict
  verdict_identified [] code = ground arith
  verdict_identified (r ∷ rs) code =
      first_verdict-ne-by_challenge r _ _ code (rule_meaning-IsDecided r.predicate)
        (verdict_identified rs code)

-- No rule denies with 401.
abbrev pub NeverDenies401 : {Net : Type 0} → List (PolicyRule Net) → Type 0
NeverDenies401 [] = Unit
NeverDenies401 (r ∷ rs) = (r.action ≢ PolicyAction.deny 401) × NeverDenies401 rs

by_rule_injective : (b c : PolicyAction) → by_rule b ≡ by_rule c → b ≡ c
by_rule_injective b c e = ground (arith, e)

first_verdict-by_rule :
    (action a : PolicyAction) (rest : Verdict) (r : PredicateResult)
    → action ≢ PolicyAction.deny 401
    → (rest ≡ by_rule a → a ≢ PolicyAction.deny 401)
    → first_verdict action rest r ≡ by_rule a
    → a ≢ PolicyAction.deny 401
first_verdict-by_rule action a rest matched here there h q =
    let same : action ≡ a = by_rule_injective action a h in here (same ∙ q)
first_verdict-by_rule action a rest unmatched here there h q = there h q
first_verdict-by_rule action a rest (challenge code) here there h q = absurd (ground (arith, h))

verdict_outcome_401 :
    (template : Text → List Part) (v : Verdict)
    → ((a : PolicyAction) → v ≡ by_rule a → a ≢ PolicyAction.deny 401)
    → v ≢ by_challenge 401
    → verdict_outcome template v ≢ PolicyOutcome.deny 401
verdict_outcome_401 template (by_rule PolicyAction.allow) h k q = ground arith
verdict_outcome_401 template (by_rule (PolicyAction.redirect to code)) h k q = ground arith
verdict_outcome_401 template (by_rule (PolicyAction.deny code)) h k q =
    let same : code ≡ 401 = ground (arith, q) in
    h (PolicyAction.deny code) refl (ap PolicyAction.deny same)
verdict_outcome_401 template (by_challenge code) h k q =
    let same : code ≡ 401 = ground (arith, q) in k (ap by_challenge same)
verdict_outcome_401 template by_default h k q = ground arith

module _ (header_name : Text → Option Text) {Net : Type 0} (contains : Net → IpAddr → Bool) where
  verdict-by_rule :
      (peer : IpAddr) (from : Option Text) (p : Principal) (rules : List (PolicyRule Net))
      (a : PolicyAction)
      → NeverDenies401 rules
      → verdict contains peer from p rules ≡ by_rule a
      → a ≢ PolicyAction.deny 401
  unfolding verdict
  verdict-by_rule peer from p [] a h e = absurd (ground (arith, e))
  verdict-by_rule peer from p (r ∷ rs) a (here, h) e =
      first_verdict-by_rule r.action a _ _ here (verdict-by_rule peer from p rs a h) e

  -- A client whose identity the context has, or the provider would give, is never answered 401 by a
  -- block of `new` or of `with_vars` in which no rule denies with 401, whatever predicates the rules
  -- have: only an anonymous client is challenged.
  pub evaluate-identified :
      (rules : List (PolicyRule Net)) (block : PolicyBlock Net) (ctx : EvalContext) (id : Identity)
      → IsBuilt header_name rules block
      → NeverDenies401 rules
      → who ctx ≡ authenticated id
      → (evaluate header_name contains block ctx).0 ≢ PolicyOutcome.deny 401
  evaluate-identified rules block ctx id built h known q =
      let (template, follows) = built-Follows header_name contains rules block built in
      let v = verdict contains ctx.peer ctx.country (authenticated id) rules in
      let same =
        ap (λ p. verdict_outcome template (verdict contains ctx.peer ctx.country p rules)) known in
      verdict_outcome_401 template v
        (λ a. verdict-by_rule ctx.peer ctx.country (authenticated id) rules a h)
        (verdict_identified contains ctx.peer ctx.country id rules 401)
        (sym ((follows ctx).0 ∙ same) ∙ q)
