-- ===== src/Router/Resolution.antt =====
-- What `resolve_named_policies` of src/router.rs makes of the policies.
use hypershunt.Prelude.{
  ℕ, zero, suc, ◌≡◌, ◌⊎◌, refl, sym, subst, Option, none, some, List, [], ◌∷◌, ◌++◌, length, arith,
  Bool-cases, Option-cases, inl, inr,
}
use hypershunt.Prelude.Text.{Text, eq_text, eq_text_iff, eq_text_refl, contains_text}
use hypershunt.Prelude.Result.{Result, ok, ◌>>=◌, bind_ok}
use hypershunt.Headers.{find_name}
use hypershunt.Access.{Predicate, PolicyAction, PolicyRule}
use hypershunt.Router.Policies.{
  PolicyRuleDef, rule, apply, PolicyError, as_rule, resolve_rule_defs, resolve_one, resolve_names,
  resolve_named_policies,
}

module _ {Net : Type 0} (defs : List (Text × List (PolicyRuleDef Net))) where
  -- The rules that a list of definitions stands for: each `apply` gives way to what the named policy's
  -- own definitions stand for.
  pub data Expands : List (PolicyRuleDef Net) → List (PolicyRule Net) → Type 0 where
    nothing : Expands [] []
    keeps :
        {rest : List (PolicyRuleDef Net)} {rules : List (PolicyRule Net)}
        (predicate : Option (Predicate Net)) (action : PolicyAction)
        → Expands rest rules
        → Expands (rule predicate action ∷ rest) (as_rule predicate action ∷ rules)
    inlines :
        {rest : List (PolicyRuleDef Net)} {rules : List (PolicyRule Net)} (name : Text)
        (ds : List (PolicyRuleDef Net)) (taken : List (PolicyRule Net))
        → find_name name defs ≡ some ds
        → Expands ds taken
        → Expands rest rules
        → Expands (apply name ∷ rest) (taken ++ rules)

  -- A policy is defined, and the rules are what its definition stands for.
  abbrev pub Stands : Text → List (PolicyRule Net) → Type 0
  Stands name rules =
      (ds : List (PolicyRuleDef Net)) × (find_name name defs ≡ some ds) × Expands ds rules

  abbrev Table : Type 0
  Table = List (Text × List (PolicyRule Net))

  -- A step of the resolution keeps the table correct and loses nothing of it.
  record Grows (before after : Table) : Type 0 where
    correct :
        ((n : Text) (r : List (PolicyRule Net)) → find_name n before ≡ some r → Stands n r)
        → (n : Text) (r : List (PolicyRule Net)) → find_name n after ≡ some r
        → Stands n r
    kept :
        (n : Text) (r : List (PolicyRule Net))
        → find_name n before ≡ some r
        → find_name n after ≡ some r

  Grows-refl : (t : Table) → Grows t t
  Grows-refl t = record { correct = λ c. c; kept = λ n r h. h }

  Grows-then : {s t u : Table} → Grows s t → Grows t u → Grows s u
  Grows-then a b = record {
    correct = λ c. b.correct (a.correct c);
    kept = λ n r h. b.kept n r (a.kept n r h);
  }

  abbrev Correct : Table → Type 0
  Correct t = (n : Text) (r : List (PolicyRule Net)) → find_name n t ≡ some r → Stands n r

  abbrev Resolves :
      (Text → List Text → Table → Result PolicyError (List (PolicyRule Net) × Table)) → Type 0
  Resolves resolve =
      (name : Text) (visiting : List Text) (t : Table) (p : List (PolicyRule Net) × Table)
      → resolve name visiting t ≡ ok p
      → Correct t
      → Stands name (p.0) × (find_name name (p.1) ≡ some (p.0)) × Grows t (p.1)

  resolve_rule_defs-Expands :
      (resolve : Text → List Text → Table → Result PolicyError (List (PolicyRule Net) × Table))
      → Resolves resolve
      → (ds : List (PolicyRuleDef Net)) (visiting : List Text) (t : Table)
        (p : List (PolicyRule Net) × Table)
      → resolve_rule_defs resolve ds visiting t ≡ ok p
      → Correct t
      → Expands ds (p.0) × Grows t (p.1)
  unfolding resolve_rule_defs
  resolve_rule_defs-Expands resolve good [] visiting t p h c =
      let start : List (PolicyRule Net) × Table = ([], t) in
      let same : start ≡ p = ground arith in
      subst (λ q. Expands [] (q.0) × Grows t (q.1)) same (nothing, Grows-refl t)
  resolve_rule_defs-Expands resolve good (rule predicate action ∷ rest) visiting t p h c =
      let step : List (PolicyRule Net) × Table
          → Result PolicyError (List (PolicyRule Net) × Table) =
        λ q. ok (as_rule predicate action ∷ q.0, q.1) in
      let (q, inside, last) = bind_ok (resolve_rule_defs resolve rest visiting t) step p h in
      let (e, g) = resolve_rule_defs-Expands resolve good rest visiting t q inside c in
      let here : List (PolicyRule Net) × Table = (as_rule predicate action ∷ q.0, q.1) in
      let same : here ≡ p = ground arith in
      subst (λ x. Expands (rule predicate action ∷ rest) (x.0) × Grows t (x.1)) same
        (keeps predicate action e, g)
  resolve_rule_defs-Expands resolve good (apply name ∷ rest) visiting t p h c =
      let join : List (PolicyRule Net) × Table
          → List (PolicyRule Net) × Table
          → List (PolicyRule Net) × Table =
        λ a q. (a.0 ++ q.0, q.1) in
      let (a, first, h2) =
        bind_ok (resolve name visiting t)
          (λ a. resolve_rule_defs resolve rest visiting (a.1) >>= λ q. ok (join a q)) p h in
      let (q, inside, last) =
        bind_ok (resolve_rule_defs resolve rest visiting (a.1)) (λ q. ok (join a q)) p h2 in
      let ((ds, d, e), found, g) = good name visiting t a first c in
      let (f, k) =
        resolve_rule_defs-Expands resolve good rest visiting (a.1) q inside (g.correct c) in
      let same : join a q ≡ p = ground arith in
      subst (λ x. Expands (apply name ∷ rest) (x.0) × Grows t (x.1)) same
        (inlines name ds (a.0) d e f, Grows-then g k)

  find_name-first :
      (n name : Text) (rules r : List (PolicyRule Net)) (t : Table)
      → find_name n ((name, rules) ∷ t) ≡ some r
      → ((name ≡ n) × (rules ≡ r)) ⊎ (find_name n t ≡ some r)
  unfolding find_name
  find_name-first n name rules r t h = elim (Bool-cases (eq_text name n)) [
    | inl e ↦ inl ((eq_text_iff name n).0 e, ground arith)
    | inr e ↦ inr (ground arith)
  ]

  find_name-here :
      (name : Text) (rules : List (PolicyRule Net)) (t : Table)
      → find_name name ((name, rules) ∷ t) ≡ some rules
  unfolding find_name
  find_name-here name rules t = rw (eq_text_refl name) refl

  -- A policy that was not in the table is added.
  Grows-add :
      (name : Text) (rules : List (PolicyRule Net)) (t u : Table)
      → find_name name t ≡ none
      → Stands name rules
      → Grows t u
      → Grows t ((name, rules) ∷ u)
  unfolding find_name
  Grows-add name rules t u fresh stands g = record {
    correct = λ c n r h. elim (find_name-first n name rules r u h) [
      | inl (a, b) ↦ subst (λ m. Stands m r) a (subst (Stands name) b stands)
      | inr k ↦ g.correct c n r k
    ];
    kept = λ n r h. elim (Bool-cases (eq_text name n)) [
      | inl e ↦
          let same = (eq_text_iff name n).0 e in
          let here : find_name name t ≡ some r = subst (λ m. find_name m t ≡ some r) (sym same) h in
          absurd (ground arith)
      | inr e ↦ rw e (g.kept n r h)
    ];
  }

  resolve_one-Resolves : (fuel : ℕ) → Resolves (resolve_one defs fuel)
  unfolding resolve_one
  resolve_one-Resolves zero name visiting t p h c = absurd (ground arith)
  resolve_one-Resolves (suc fuel) name visiting t p h c = elim (Option-cases (find_name name t)) [
    | inr (rules, e) ↦
        let start : List (PolicyRule Net) × Table = (rules, t) in
        let same : start ≡ p = ground arith in
        subst (λ q. Stands name (q.0) × (find_name name (q.1) ≡ some (q.0)) × Grows t (q.1)) same
          (c name rules e, e, Grows-refl t)
    | inl e ↦ elim (Bool-cases (contains_text visiting name)) [
      | inl v ↦ absurd (ground arith)
      | inr v ↦ elim (Option-cases (find_name name defs)) [
        | inl d ↦ absurd (ground arith)
        | inr (ds, d) ↦
            let body = resolve_rule_defs (resolve_one defs fuel) ds (visiting ++ name ∷ []) t in
            let add : List (PolicyRule Net) × Table → List (PolicyRule Net) × Table =
              λ q. (q.0, (name, q.0) ∷ q.1) in
            let here : (body >>= λ q. ok (add q)) ≡ ok p = ground arith in
            let (q, inside, last) = bind_ok body (λ q. ok (add q)) p here in
            let (x, g) =
              resolve_rule_defs-Expands (resolve_one defs fuel) (resolve_one-Resolves fuel) ds
                (visiting ++ name ∷ []) t q inside c in
            let same : add q ≡ p = ground arith in
            subst (λ q. Stands name (q.0) × (find_name name (q.1) ≡ some (q.0)) × Grows t (q.1))
              same
              (
                (ds, d, x),
                find_name-here name (q.0) (q.1),
                Grows-add name (q.0) t (q.1) e (ds, d, x) g,
              )
      ]
    ]
  ]

  resolve_names-Stands :
      (rest : List (Text × List (PolicyRuleDef Net))) (t u : Table)
      → resolve_names defs rest t ≡ ok u
      → Correct t
      → Grows t u
        × ((name : Text) (ds : List (PolicyRuleDef Net))
            → find_name name rest ≡ some ds
            → (rules : List (PolicyRule Net)) × (find_name name u ≡ some rules))
  unfolding resolve_names find_name
  resolve_names-Stands [] t u h c =
      let same : t ≡ u = ground arith in
      (subst (Grows t) same (Grows-refl t), λ name ds e. absurd (ground arith))
  resolve_names-Stands ((n, ds) ∷ rest) t u h c =
      let (p, first, inside) =
        bind_ok (resolve_one defs (suc (length defs)) n [] t) (λ p. resolve_names defs rest (p.1)) u
          h in
      let (stands, found, g) = resolve_one-Resolves (suc (length defs)) n [] t p first c in
      let (k, others) = resolve_names-Stands rest (p.1) u inside (g.correct c) in
      (
        Grows-then g k,
        λ name es e. elim (Bool-cases (eq_text n name)) [
          | inl b ↦
              let same = (eq_text_iff n name).0 b in
              (p.0, subst (λ m. find_name m u ≡ some (p.0)) same (k.kept n (p.0) found))
          | inr b ↦ others name es (ground arith)
        ],
      )

-- If the named policies resolve, every policy is in the result, with the rules that its definition
-- stands for: each `apply` in it, at any depth, gives way to the rules of the named policy, in place.
pub resolve_named_policies-Expands :
    {Net : Type 0} (defs : List (Text × List (PolicyRuleDef Net)))
    (out : List (Text × List (PolicyRule Net))) (name : Text) (ds : List (PolicyRuleDef Net))
    → resolve_named_policies defs ≡ ok out
    → find_name name defs ≡ some ds
    → (rules : List (PolicyRule Net)) × (find_name name out ≡ some rules) × Expands defs ds rules
unfolding resolve_named_policies find_name
resolve_named_policies-Expands defs out name ds h d =
    let empty : Correct defs [] = λ n r e. absurd (ground arith) in
    let (g, all) = resolve_names-Stands defs defs [] out h empty in
    let (rules, found) = all name ds d in
    let (es, e, x) = g.correct empty name rules found in
    let same : es ≡ ds = ground arith in (rules, found, subst (λ s. Expands defs s rules) same x)
