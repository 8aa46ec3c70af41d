-- ===== src/Router/Policies.antt =====
-- The named policies of src/router.rs: `resolve_named_policies`, `resolve_one`, `resolve_rule_defs`,
-- `inline_rules` and the checks for stream listeners.
use hypershunt.Prelude.{
  ℕ, zero, suc, Bool, false, not, ◌&&◌, Option, none, some, List, [], ◌∷◌, ◌++◌, length,
  if◌then◌else◌,
}
use hypershunt.Prelude.Text.{Text, contains_text}
use hypershunt.Prelude.Result.{Result, ok, err, ◌>>=◌, ◌>>◌, guard}
use hypershunt.Headers.{find_name}
use hypershunt.Access.{Predicate, needs_auth, PolicyAction, PolicyRule, PolicyBlock, new_block}

pub data PolicyRuleDef (Net : Type 0) : Type 0 where
  rule : Option (Predicate Net) → PolicyAction → PolicyRuleDef Net
  apply : Text → PolicyRuleDef Net

-- The errors: a circle with its chain, an undefined policy, and identity predicates for a stream
-- listener. `too_deep` is a recursion that is cut off.
pub data PolicyError : Type 0 where
  circular : Text → List Text → PolicyError
  undefined : Text → PolicyError
  identity_predicate : PolicyError
  identity_policy : Text → PolicyError
  too_deep : PolicyError

module _ {Net : Type 0} where
  abbrev pub as_rule : Option (Predicate Net) → PolicyAction → PolicyRule Net
  as_rule predicate action = record { predicate = predicate; action = action }

  unfoldable pub identifies : Option (Predicate Net) → Bool
  unfolding needs_auth
  identifies none = false
  identifies (some p) = needs_auth p

  -- `resolve` stands for the call of `resolve_one`.
  unfoldable pub resolve_rule_defs :
      (Text
        → List Text
        → List (Text × List (PolicyRule Net))
        → Result PolicyError (List (PolicyRule Net) × List (Text × List (PolicyRule Net))))
      → List (PolicyRuleDef Net)
      → List Text
      → List (Text × List (PolicyRule Net))
      → Result PolicyError (List (PolicyRule Net) × List (Text × List (PolicyRule Net)))
  resolve_rule_defs resolve [] visiting resolved = ok ([], resolved)
  resolve_rule_defs resolve (rule predicate action ∷ rest) visiting resolved =
      resolve_rule_defs resolve rest visiting resolved >>= λ q.
      ok (as_rule predicate action ∷ q.0, q.1)
  resolve_rule_defs resolve (apply name ∷ rest) visiting resolved =
      resolve name visiting resolved >>= λ p.
      resolve_rule_defs resolve rest visiting (p.1) >>= λ q. ok (p.0 ++ q.0, q.1)

  module _ (defs : List (Text × List (PolicyRuleDef Net))) where
    -- `visiting` is pushed to before the rules are resolved, and popped behind them.
    unfoldable pub resolve_one :
        ℕ
        → Text
        → List Text
        → List (Text × List (PolicyRule Net))
        → Result PolicyError (List (PolicyRule Net) × List (Text × List (PolicyRule Net)))
    unfolding resolve_rule_defs find_name contains_text
    resolve_one zero name visiting resolved = err too_deep
    resolve_one (suc fuel) name visiting resolved =
        let inside : List (PolicyRuleDef Net)
            → Result PolicyError (List (PolicyRule Net) × List (Text × List (PolicyRule Net))) =
          λ rule_defs.
            resolve_rule_defs (resolve_one fuel) rule_defs (visiting ++ name ∷ []) resolved >>= λ p.
            ok (p.0, (name, p.0) ∷ p.1) in
        elim (find_name name resolved) [
          | some rules ↦ ok (rules, resolved)
          | none ↦
              if contains_text visiting name
              then err (circular name visiting)
              else (elim (find_name name defs) [
                | none ↦ err (undefined name)
                | some rule_defs ↦ inside rule_defs
              ])
        ]

    -- The loop over the names, each with the recursion as deep as there are policies.
    unfoldable pub resolve_names :
        List (Text × List (PolicyRuleDef Net))
        → List (Text × List (PolicyRule Net))
        → Result PolicyError (List (Text × List (PolicyRule Net)))
    unfolding resolve_one
    resolve_names [] resolved = ok resolved
    resolve_names ((name, ds) ∷ rest) resolved =
        resolve_one (suc (length defs)) name [] resolved >>= λ p. resolve_names rest (p.1)

    unfoldable pub resolve_named_policies : Result PolicyError (List (Text × List (PolicyRule Net)))
    unfolding resolve_names
    resolve_named_policies = resolve_names defs []

  unfoldable pub check_tcp_predicate : Option (Predicate Net) → Bool → Result PolicyError (Unit {0})
  unfolding identifies
  check_tcp_predicate predicate tcp_only =
      guard (not (tcp_only && identifies predicate)) identity_predicate

  unfoldable pub check_tcp_block_rules :
      List (PolicyRule Net) → Text → Result PolicyError (Unit {0})
  unfolding identifies
  check_tcp_block_rules [] name = ok tt
  check_tcp_block_rules (r ∷ rules) name =
      guard (not (identifies r.predicate)) (identity_policy name)
      >> check_tcp_block_rules rules name

  -- An `apply` takes over the rules of the policy, which for a stream listener are checked first.
  unfoldable pub inline_rules :
      List (PolicyRuleDef Net)
      → List (Text × List (PolicyRule Net))
      → Bool
      → Result PolicyError (List (PolicyRule Net))
  unfolding check_tcp_predicate check_tcp_block_rules find_name
  inline_rules [] named tcp_only = ok []
  inline_rules (rule predicate action ∷ rest) named tcp_only =
      check_tcp_predicate predicate tcp_only
      >> (inline_rules rest named tcp_only >>= λ rules. ok (as_rule predicate action ∷ rules))
  inline_rules (apply name ∷ rest) named tcp_only =
      let inlined : List (PolicyRule Net) → Result PolicyError (List (PolicyRule Net)) =
        λ taken. inline_rules rest named tcp_only >>= λ rules. ok (taken ++ rules) in
      elim (find_name name named) [
        | none ↦ err (undefined name)
        | some taken ↦
            if tcp_only then check_tcp_block_rules taken name >> inlined taken else inlined taken
      ]

module _ (header_name : Text → Option Text) {Net : Type 0} where
  unfoldable pub resolve_block :
      List (PolicyRuleDef Net)
      → List (Text × List (PolicyRule Net))
      → Bool
      → Result PolicyError (PolicyBlock Net)
  unfolding inline_rules new_block
  resolve_block defs named tcp_only =
      inline_rules defs named tcp_only >>= λ rules. ok (new_block header_name rules)
