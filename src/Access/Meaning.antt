-- ===== src/Access/Meaning.antt =====
-- What a predicate of src/access.rs means for a fixed principal, without state; the evaluator
-- computes that meaning, and asks for the principal at most once.
use hypershunt.Prelude.{
  ◌≡◌, refl, ap, ◌∙◌, ◌⊎◌, inl, inr, Bool, true, false, Option, none, some, any, arith,
}
use hypershunt.Prelude.Text.{Text, contains_text}
use hypershunt.Net.{IpAddr}
use hypershunt.Access.Defs.{
  Principal, Predicate, Predicates, address, country, user, group, is_authenticated, negated, both,
  nil, cons, needs_auth, any_needs_auth, PredicateResult, matched, unmatched, challenge,
  EvalContext, resolve_principal,
}
use hypershunt.Access.Eval.{
  match_if, match_identity, negate, in_country, shares_group, eval_predicate, eval_all, and_then,
  eval_rule,
}

abbrev pub then_also : PredicateResult → PredicateResult → PredicateResult
then_also matched r = r
then_also unmatched r = unmatched
then_also (challenge code) r = challenge code

module _ {Net : Type 0} (contains : Net → IpAddr → Bool) where
  module _ (peer : IpAddr) (from : Option Text) (who : Principal) where
    unfoldable mutual
      pub meaning : Predicate Net → PredicateResult
      meaning (address nets) = match_if (any (λ n. contains n peer) nets)
      meaning (country codes) = match_if (in_country from codes)
      meaning is_authenticated = match_identity (λ id. true) who
      meaning (user names) = match_identity (λ id. contains_text names id.username) who
      meaning (group groups) = match_identity (λ id. shares_group groups id.groups) who
      meaning (negated p) = negate (meaning p)
      meaning (both ps) = meaning_all ps

      pub meaning_all : Predicates Net → PredicateResult
      meaning_all nil = matched
      meaning_all (cons p ps) = then_also (meaning p) (meaning_all ps)

-- The principal that a context has or would get, and the context once it has it.
unfoldable pub who : EvalContext → Principal
unfolding resolve_principal
who ctx = (resolve_principal ctx).0

unfoldable pub resolved : EvalContext → EvalContext
unfolding resolve_principal
resolved ctx = (resolve_principal ctx).1

pub resolved_fields :
    (ctx : EvalContext)
    → ((resolved ctx).peer ≡ ctx.peer)
      × ((resolved ctx).country ≡ ctx.country)
      × (who (resolved ctx) ≡ who ctx)
unfolding resolved who
resolved_fields ctx = ground arith

pub resolved_idem : (ctx : EvalContext) → resolved (resolved ctx) ≡ resolved ctx
unfolding resolved
resolved_idem ctx = ground arith

-- A step of the evaluation leaves the context, or resolves its principal.
abbrev pub Leaves : EvalContext → EvalContext → Type 0
Leaves ctx ctx' = (ctx' ≡ ctx) ⊎ (ctx' ≡ resolved ctx)

pub Leaves-trans : (a b c : EvalContext) → Leaves a b → Leaves b c → Leaves a c
Leaves-trans a b c h k = ground (arith, resolved_idem a)

abbrev pub Computes : EvalContext → PredicateResult → PredicateResult × EvalContext → Type 0
Computes ctx r out = (out.0 ≡ r) × Leaves ctx out.1

and_then-Computes :
    (go_on : EvalContext → PredicateResult × EvalContext) (ctx : EvalContext)
    (r s : PredicateResult) (out : PredicateResult × EvalContext)
    → Computes ctx r out
    → Computes out.1 s (go_on out.1)
    → Computes ctx (then_also r s) (and_then go_on out)
and_then-Computes go_on ctx r s (matched, c) (e, l) (f, k) =
    (f ∙ ap (λ x. then_also x s) e, Leaves-trans ctx c (go_on c).1 l k)
and_then-Computes go_on ctx r s (unmatched, c) (e, l) h = (ap (λ x. then_also x s) e, l)
and_then-Computes go_on ctx r s (challenge code, c) (e, l) h = (ap (λ x. then_also x s) e, l)

and_then_lazy :
    (go_on : EvalContext → PredicateResult × EvalContext) (ctx : EvalContext)
    (out : PredicateResult × EvalContext)
    → out.1 ≡ ctx
    → (go_on ctx).1 ≡ ctx
    → (and_then go_on out).1 ≡ ctx
and_then_lazy go_on ctx (matched, c) e h = ap (λ x. (go_on x).1) e ∙ h
and_then_lazy go_on ctx (unmatched, c) e h = e
and_then_lazy go_on ctx (challenge code, c) e h = e

module _ {Net : Type 0} (contains : Net → IpAddr → Bool) where
  abbrev means : Predicates Net → EvalContext → PredicateResult
  means ps ctx = meaning_all contains ctx.peer ctx.country (who ctx) ps

  means-Leaves :
      (ps : Predicates Net) (ctx ctx' : EvalContext)
      → Leaves ctx ctx'
      → means ps ctx' ≡ means ps ctx
  means-Leaves ps ctx ctx' (inl e) = rw e
  means-Leaves ps ctx ctx' (inr e) = let (p, c, w) = resolved_fields ctx in rw e (simp (p, c, w))

  mutual
    unfolding eval_predicate eval_all meaning meaning_all who resolved

    eval_predicate-Computes :
        (p : Predicate Net) (ctx : EvalContext)
        → Computes ctx
            (meaning contains ctx.peer ctx.country (who ctx) p)
            (eval_predicate contains p ctx)
    eval_predicate-Computes (address nets) ctx = (refl, inl refl)
    eval_predicate-Computes (country codes) ctx = (refl, inl refl)
    eval_predicate-Computes is_authenticated ctx = (refl, inr refl)
    eval_predicate-Computes (user names) ctx = (refl, inr refl)
    eval_predicate-Computes (group groups) ctx = (refl, inr refl)
    eval_predicate-Computes (negated p) ctx =
        let (r, l) = eval_predicate-Computes p ctx in (ap negate r, l)
    eval_predicate-Computes (both ps) ctx = eval_all-Computes ps ctx

    eval_all-Computes :
        (ps : Predicates Net) (ctx : EvalContext)
        → Computes ctx (means ps ctx) (eval_all contains ps ctx)
    eval_all-Computes nil ctx = (refl, inl refl)
    eval_all-Computes (cons p ps) ctx =
        let here = eval_predicate-Computes p ctx in
        let next = (eval_predicate contains p ctx).1 in
        let rest = eval_all-Computes ps next in
        and_then-Computes (λ c. eval_all contains ps c) ctx _ (means ps ctx) _ here
          (rest.0 ∙ means-Leaves ps ctx next here.1, rest.1)

  -- The stateful evaluator computes the predicate's meaning for the principal that the context has,
  -- or would get from the provider, and leaves the context as it was or with that principal kept.
  pub eval_predicate-meaning :
      (p : Predicate Net) (ctx : EvalContext)
      → ((eval_predicate contains p ctx).0 ≡ meaning contains ctx.peer ctx.country (who ctx) p)
        × (((eval_predicate contains p ctx).1 ≡ ctx)
            ⊎ ((eval_predicate contains p ctx).1 ≡ resolved ctx))
  eval_predicate-meaning p ctx = eval_predicate-Computes p ctx

  mutual
    unfolding eval_predicate eval_all needs_auth any_needs_auth

    eval_predicate_lazy :
        (p : Predicate Net) (ctx : EvalContext)
        → needs_auth p ≡ false
        → (eval_predicate contains p ctx).1 ≡ ctx
    eval_predicate_lazy (address nets) ctx h = refl
    eval_predicate_lazy (country codes) ctx h = refl
    eval_predicate_lazy is_authenticated ctx h = ground arith
    eval_predicate_lazy (user names) ctx h = ground arith
    eval_predicate_lazy (group groups) ctx h = ground arith
    eval_predicate_lazy (negated p) ctx h = eval_predicate_lazy p ctx h
    eval_predicate_lazy (both ps) ctx h = eval_all_lazy ps ctx h

    eval_all_lazy :
        (ps : Predicates Net) (ctx : EvalContext)
        → any_needs_auth ps ≡ false
        → (eval_all contains ps ctx).1 ≡ ctx
    eval_all_lazy nil ctx h = refl
    eval_all_lazy (cons p ps) ctx h =
        and_then_lazy (λ c. eval_all contains ps c) ctx (eval_predicate contains p ctx)
          (eval_predicate_lazy p ctx (ground arith)) (eval_all_lazy ps ctx (ground arith))

  -- A predicate with no identity leaf never asks the provider.
  pub eval_predicate-needs_auth :
      (p : Predicate Net) (ctx : EvalContext)
      → needs_auth p ≡ false
      → (eval_predicate contains p ctx).1 ≡ ctx
  eval_predicate-needs_auth p ctx h = eval_predicate_lazy p ctx h

  -- A rule with no predicate always matches.
  unfoldable pub rule_meaning :
      IpAddr → Option Text → Principal → Option (Predicate Net) → PredicateResult
  rule_meaning peer from p none = matched
  rule_meaning peer from p (some pred) = meaning contains peer from p pred

  pub eval_rule-Computes :
      (pred : Option (Predicate Net)) (ctx : EvalContext)
      → Computes ctx
          (rule_meaning ctx.peer ctx.country (who ctx) pred)
          (eval_rule contains pred ctx)
  unfolding rule_meaning eval_rule
  eval_rule-Computes none ctx = (refl, inl refl)
  eval_rule-Computes (some pred) ctx = eval_predicate-Computes pred ctx
