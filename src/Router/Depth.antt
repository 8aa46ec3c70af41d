-- ===== src/Router/Depth.antt =====
-- The recursion of `resolve_one` in src/router.rs is no deeper than there are policies.
use hypershunt.Prelude.{
  ℕ, zero, suc, ◌+◌, ◌≤◌, ◌<◌, ◌≡◌, ◌≢◌, sym, subst, true, false, some, List, [], ◌∷◌, ◌++◌, length,
  arith, Bool-cases, Option-cases, inl, inr, if◌then◌else◌,
}
use hypershunt.Prelude.Text.{
  Text, eq_text, eq_text_iff, contains_text, contains_text-append_left, contains_text-snoc,
}
use hypershunt.Prelude.Result.{Result, err, Result-cases}
use hypershunt.Headers.{find_name}
use hypershunt.Access.{PolicyRule}
use hypershunt.Router.Policies.{
  PolicyRuleDef, rule, apply, PolicyError, too_deep, resolve_rule_defs, resolve_one, resolve_names,
  resolve_named_policies,
}

module _ {A : Type 0} where
  -- The entries whose names are not being visited.
  left : List Text → List (Text × A) → ℕ
  left visiting [] = 0
  left visiting ((n, a) ∷ rest) = (if contains_text visiting n then 0 else 1) + left visiting rest

  left-length : (visiting : List Text) (defs : List (Text × A)) → left visiting defs ≤ length defs
  unfolding left
  left-length visiting [] = omega arith
  left-length visiting ((n, a) ∷ rest) = ground (arith, left-length visiting rest)

  left-snoc :
      (visiting : List Text) (name : Text) (defs : List (Text × A))
      → left (visiting ++ name ∷ []) defs ≤ left visiting defs
  unfolding left
  left-snoc visiting name [] = omega arith
  left-snoc visiting name ((n, a) ∷ rest) =
      ground (arith, left-snoc visiting name rest, contains_text-append_left visiting (name ∷ []) n)

  -- To visit one more takes at least its own entry away.
  left-visit :
      (visiting : List Text) (name : Text) (defs : List (Text × A)) (a : A)
      → contains_text visiting name ≡ false
      → find_name name defs ≡ some a
      → left (visiting ++ name ∷ []) defs < left visiting defs
  unfolding left find_name
  left-visit visiting name [] a v h = absurd (ground arith)
  left-visit visiting name ((n, b) ∷ rest) a v h = elim (Bool-cases (eq_text n name)) [
    | inl e ↦
        let same = (eq_text_iff n name).0 e in
        let now : contains_text (visiting ++ name ∷ []) n ≡ true =
          subst (λ m. contains_text (visiting ++ name ∷ []) m ≡ true) (sym same)
            (contains_text-snoc visiting name) in
        let before : contains_text visiting n ≡ false =
          subst (λ m. contains_text visiting m ≡ false) (sym same) v in
        rw (now, before) (omega (arith, left-snoc visiting name rest))
    | inr e ↦ ground (
      arith,
      left-visit visiting name rest a v (ground arith),
      contains_text-append_left visiting (name ∷ []) n,
    )
  ]

module _ {Net : Type 0} (defs : List (Text × List (PolicyRuleDef Net))) where
  abbrev Table : Type 0
  Table = List (Text × List (PolicyRule Net))

  resolve_rule_defs-deep :
      (resolve : Text → List Text → Table → Result PolicyError (List (PolicyRule Net) × Table))
      (visiting : List Text)
      → ((name : Text) (t : Table) → resolve name visiting t ≢ err too_deep)
      → (ds : List (PolicyRuleDef Net)) (t : Table)
      → resolve_rule_defs resolve ds visiting t ≢ err too_deep
  unfolding resolve_rule_defs
  resolve_rule_defs-deep resolve visiting good [] t h = ground arith
  resolve_rule_defs-deep resolve visiting good (rule predicate action ∷ rest) t h =
      elim (Result-cases (resolve_rule_defs resolve rest visiting t)) [
        | inl (q, e) ↦ ground arith
        | inr (x, e) ↦ resolve_rule_defs-deep resolve visiting good rest t (ground arith)
      ]
  resolve_rule_defs-deep resolve visiting good (apply name ∷ rest) t h =
      elim (Result-cases (resolve name visiting t)) [
        | inr (x, e) ↦ good name t (ground arith)
        | inl (p, e) ↦ elim (Result-cases (resolve_rule_defs resolve rest visiting (p.1))) [
          | inl (q, f) ↦ ground arith
          | inr (x, f) ↦ resolve_rule_defs-deep resolve visiting good rest (p.1) (ground arith)
        ]
      ]

  resolve_one-deep :
      (fuel : ℕ) (name : Text) (visiting : List Text) (t : Table)
      → left visiting defs < fuel
      → resolve_one defs fuel name visiting t ≢ err too_deep
  unfolding resolve_one
  resolve_one-deep zero name visiting t l h = omega arith
  resolve_one-deep (suc fuel) name visiting t l h = elim (Option-cases (find_name name t)) [
    | inr (rules, e) ↦ ground arith
    | inl e ↦ elim (Bool-cases (contains_text visiting name)) [
      | inl v ↦ ground arith
      | inr v ↦ elim (Option-cases (find_name name defs)) [
        | inl d ↦ ground arith
        | inr (ds, d) ↦
            let fewer = left-visit visiting name defs ds v d in
            elim (Result-cases
              (resolve_rule_defs (resolve_one defs fuel) ds (visiting ++ name ∷ []) t)) [
                | inl (q, f) ↦ ground arith
                | inr (x, f) ↦
                    resolve_rule_defs-deep (resolve_one defs fuel) (visiting ++ name ∷ [])
                      (λ n u. resolve_one-deep fuel n (visiting ++ name ∷ []) u (omega arith)) ds t
                      (ground arith)
              ]
      ]
    ]
  ]

  resolve_names-deep :
      (rest : List (Text × List (PolicyRuleDef Net))) (t : Table)
      → resolve_names defs rest t ≢ err too_deep
  unfolding resolve_names
  resolve_names-deep [] t h = ground arith
  resolve_names-deep ((n, ds) ∷ rest) t h =
      elim (Result-cases (resolve_one defs (suc (length defs)) n [] t)) [
        | inl (p, e) ↦ resolve_names-deep rest (p.1) (ground arith)
        | inr (x, e) ↦
            resolve_one-deep (suc (length defs)) n [] t (omega (arith, left-length [] defs))
              (ground arith)
      ]

  -- The resolution ends with a result or with one of the source's errors: a recursion as deep as there
  -- are policies is enough.
  pub resolve_named_policies-deep : resolve_named_policies defs ≢ err too_deep
  unfolding resolve_named_policies
  resolve_named_policies-deep = resolve_names-deep defs []
