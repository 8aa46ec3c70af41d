-- ===== src/Access/Needs.antt =====
-- What the analysis of a block in src/access.rs promises: a block without a country predicate needs
-- no GeoIP lookup.
use hypershunt.Prelude.{
  ◌≡◌, refl, sym, ap, ap₂, ◌∙◌, Bool, false, Option, none, some, List, [], ◌∷◌, any, arith,
}
use hypershunt.Prelude.Text.{Text}
use hypershunt.Net.{IpAddr}
use hypershunt.Access.Defs.{
  Principal, Predicate, Predicates, address, country, user, group, is_authenticated, negated, both,
  nil, cons, needs_geoip, any_needs_geoip, PolicyRule, PolicyBlock, EvalContext,
}
use hypershunt.Access.Eval.{negate, rule_needs_geoip, evaluate}
use hypershunt.Access.Meaning.{meaning, meaning_all, rule_meaning, then_also, who}
use hypershunt.Access.First.{verdict, verdict_outcome, first_verdict}
use hypershunt.Access.Built.{IsBuilt, built-Follows, built-needs_geoip}

module _ {Net : Type 0} (contains : Net → IpAddr → Bool) (peer : IpAddr) (p : Principal)
    (from from' : Option Text) where
  mutual
    unfolding meaning meaning_all needs_geoip any_needs_geoip

    meaning-needs_geoip :
        (pred : Predicate Net)
        → needs_geoip pred ≡ false
        → meaning contains peer from p pred ≡ meaning contains peer from' p pred
    meaning-needs_geoip (address nets) h = refl
    meaning-needs_geoip (country codes) h = ground arith
    meaning-needs_geoip is_authenticated h = refl
    meaning-needs_geoip (user names) h = refl
    meaning-needs_geoip (group groups) h = refl
    meaning-needs_geoip (negated q) h = ap negate (meaning-needs_geoip q h)
    meaning-needs_geoip (both qs) h = meaning_all-needs_geoip qs h

    meaning_all-needs_geoip :
        (preds : Predicates Net)
        → any_needs_geoip preds ≡ false
        → meaning_all contains peer from p preds ≡ meaning_all contains peer from' p preds
    meaning_all-needs_geoip nil h = refl
    meaning_all-needs_geoip (cons q qs) h =
        ap₂ then_also (meaning-needs_geoip q (ground arith))
          (meaning_all-needs_geoip qs (ground arith))

  rule_meaning-needs_geoip :
      (pred : Option (Predicate Net)) (r : PolicyRule Net)
      → r.predicate ≡ pred
      → rule_needs_geoip r ≡ false
      → rule_meaning contains peer from p pred ≡ rule_meaning contains peer from' p pred
  unfolding rule_meaning rule_needs_geoip
  rule_meaning-needs_geoip none r e h = refl
  rule_meaning-needs_geoip (some q) r e h = meaning-needs_geoip q (ground arith)

  verdict-needs_geoip :
      (rules : List (PolicyRule Net))
      → any rule_needs_geoip rules ≡ false
      → verdict contains peer from p rules ≡ verdict contains peer from' p rules
  unfolding verdict
  verdict-needs_geoip [] h = refl
  verdict-needs_geoip (r ∷ rs) h =
      ap₂ (first_verdict r.action) (verdict-needs_geoip rs (ground arith))
        (rule_meaning-needs_geoip r.predicate r refl (ground arith))

who-country :
    (ctx : EvalContext) (from : Option Text) → who (record ctx { country = from }) ≡ who ctx
unfolding who
who-country ctx from = ground arith

module _ (header_name : Text → Option Text) {Net : Type 0} (contains : Net → IpAddr → Bool) where
  -- A block, of `new` or of `with_vars`, that reports that it needs no GeoIP lookup gives the same
  -- outcome whatever country the context has.
  pub evaluate-needs_geoip :
      (rules : List (PolicyRule Net)) (block : PolicyBlock Net) (ctx : EvalContext)
      (from : Option Text)
      → IsBuilt header_name rules block
      → block.needs_geoip ≡ false
      → (evaluate header_name contains block ctx).0
        ≡ (evaluate header_name contains block (record ctx { country = from })).0
  evaluate-needs_geoip rules block ctx from built h =
      let (template, follows) = built-Follows header_name contains rules block built in
      let none_needed = sym (built-needs_geoip header_name contains rules block built) ∙ h in
      let same =
        verdict-needs_geoip contains ctx.peer (who ctx) ctx.country from rules none_needed in
      (follows ctx).0
      ∙ ap (verdict_outcome template) same
      ∙ rw (← who-country ctx from) (sym (follows (record ctx { country = from })).0)
