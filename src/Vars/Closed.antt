-- ===== src/Vars/Closed.antt =====
-- The references of a table that src/vars.rs builds stay within the table.
use hypershunt.Prelude.{
  ℕ, zero, suc, ◌≡◌, ◌⊎◌, refl, ap, subst, true, Option, none, some, List, [], ◌∷◌, ◌++◌, length,
  get_elem?, All, ◌==◌, arith, Bool-cases, Option-cases, inl, inr,
}
use hypershunt.Prelude.Text.{Text}
use hypershunt.Prelude.Result.{Result, ok, err, ◌>>=◌, bind_ok}
use hypershunt.Headers.{Part, CaptureScope, VarNames}
use hypershunt.Headers.Build.{compile, compile_with_captures}
use hypershunt.Headers.Refs.{contains_id, refs}
use hypershunt.Vars.Defs.{
  VariableArm, VariableBody, constant, match_on, VariableDef, RegexOps, Arm, VarBody, const,
  matching, VarDef, VarTable, add_ids, add_deps, arm_values, templates, body_deps, deps_of,
}
use hypershunt.Vars.Build.{
  VarError, bad_template, map_err, from_regex, no_captures, compile_arm, compile_arms, compile_body,
  compile_defs,
}
use hypershunt.Vars.Scoped.{
  contains_id-snoc_other, IsNamed, Scoped, compile-Scoped, compile_with_captures-Scoped,
}

pub map_err_ok :
    {E F A : Type 0} (f : E → F) (r : Result E A) (a : A) → map_err f r ≡ ok a → r ≡ ok a
map_err_ok f (ok b) a h = ground arith
map_err_ok f (err e) a h = absurd (ground arith)

module _ {Regex : Type 0} (R : RegexOps Regex) (header_name : Text → Option Text) where
  compile_arm-Scoped :
      (arm : VariableArm) (names : VarNames) (a : Arm Regex)
      → compile_arm R header_name arm names ≡ ok a
      → Scoped header_name names a.value
  unfolding compile_arm
  compile_arm-Scoped arm names a h = elim (Option-cases arm.pattern) [
    | inl e ↦ compiled (no_captures R header_name) none (ground arith)
    | inr (pat, e) ↦ elim (Option-cases (R.new pat)) [
      | inl k ↦ absurd (ground arith)
      | inr (re, k) ↦ compiled (from_regex R header_name re) (some re) (ground arith)
    ]
  ]
    where
      compiled :
          (caps : CaptureScope) (regex : Option Regex)
          → (map_err
                (bad_template arm.line)
                (compile_with_captures header_name arm.value names caps)
              >>= λ v. ok (record { regex = regex; value = v }))
            ≡ ok a
          → Scoped header_name names a.value
      compiled caps regex g =
          let made : List Part → Result VarError (Arm Regex) =
            λ v. ok (record { regex = regex; value = v }) in
          let (v, first, last) =
            bind_ok
              (map_err (bad_template arm.line)
                (compile_with_captures header_name arm.value names caps))
              made a g in
          let same : v ≡ a.value = ground arith in
          subst (Scoped header_name names) same (
            compile_with_captures-Scoped header_name arm.value names caps v (
              map_err_ok (bad_template arm.line)
                (compile_with_captures header_name arm.value names caps) v first))

  compile_arms-Scoped :
      (arms : List VariableArm) (names : VarNames) (out : List (Arm Regex))
      → compile_arms R header_name arms names ≡ ok out
      → All (Scoped header_name names) (arm_values out)
  unfolding compile_arms arm_values
  compile_arms-Scoped [] names out h =
      let same : [] ≡ out = ground arith in
      subst (λ o. All (Scoped header_name names) (arm_values o)) same tt
  compile_arms-Scoped (arm ∷ arms) names out h =
      let add : Arm Regex → List (Arm Regex) → Result VarError (List (Arm Regex)) =
        λ a rest. ok (a ∷ rest) in
      let go : (compile_arm R header_name arm names >>= λ a.
      compile_arms R header_name arms names >>= λ rest. add a rest)
          ≡ ok out =
        ground arith in
      let (a, first, h2) =
        bind_ok (compile_arm R header_name arm names)
          (λ a. compile_arms R header_name arms names >>= λ rest. add a rest) out go in
      let (rest, inside, last) =
        bind_ok (compile_arms R header_name arms names) (λ rest. add a rest) out h2 in
      let same : a ∷ rest ≡ out = ground arith in
      subst (λ o. All (Scoped header_name names) (arm_values o)) same
        (compile_arm-Scoped arm names a first, compile_arms-Scoped arms names rest inside)

  compile_body-Scoped :
      (spec : VariableDef) (names : VarNames) (body : VarBody Regex)
      → compile_body R header_name spec names ≡ ok body
      → All (Scoped header_name names) (templates body)
  unfolding compile_body templates
  compile_body-Scoped spec names body h = elim (VariableBody-cases spec.body) [
    | inl (t, e) ↦
        let go : (map_err (bad_template spec.line) (compile header_name t names) >>= λ parts.
        ok (const parts))
            ≡ ok body =
          ground arith in
        let (parts, first, last) =
          bind_ok (map_err (bad_template spec.line) (compile header_name t names))
            (λ parts. ok (const parts)) body go in
        let same : const parts ≡ body = ground arith in
        subst (λ b. All (Scoped header_name names) (templates b)) same
          (
            compile-Scoped header_name t names parts
                (map_err_ok (bad_template spec.line) (compile header_name t names) parts first),
            tt,
          )
    | inr (input, arms, e) ↦
        let add : List Part → List (Arm Regex) → Result VarError (VarBody Regex) =
          λ parts compiled. ok (matching parts compiled) in
        let go : (map_err (bad_template spec.line) (compile header_name input names) >>= λ parts.
        compile_arms R header_name arms names >>= λ compiled. add parts compiled)
            ≡ ok body =
          ground arith in
        let (parts, first, h2) =
          bind_ok (map_err (bad_template spec.line) (compile header_name input names))
            (λ parts. compile_arms R header_name arms names >>= λ compiled. add parts compiled) body
            go in
        let (compiled, inside, last) =
          bind_ok (compile_arms R header_name arms names) (λ compiled. add parts compiled) body
            h2 in
        let same : matching parts compiled ≡ body = ground arith in
        subst (λ b. All (Scoped header_name names) (templates b)) same
          (
            compile-Scoped header_name input names parts
                (map_err_ok (bad_template spec.line) (compile header_name input names) parts first),
            compile_arms-Scoped arms names compiled inside,
          )
  ]
    where
      VariableBody-cases :
          (b : VariableBody)
          → ((t : Text) × (b ≡ constant t))
            ⊎ ((input : Text) × (arms : List VariableArm) × (b ≡ match_on input arms))
      VariableBody-cases (constant t) = inl (t, refl)
      VariableBody-cases (match_on input arms) = inr (input, arms, refl)

  -- A definition of a compiled list refers to named variables only, and there are as many as were
  -- chosen.
  pub compile_defs-Scoped :
      (specs : List VariableDef) (names : VarNames) (defs : List (VarDef Regex))
      → compile_defs R header_name specs names ≡ ok defs
      → (length defs ≡ length specs)
        × All (λ def. All (Scoped header_name names) (templates def.body)) defs
  unfolding compile_defs
  compile_defs-Scoped [] names defs h =
      let same : [] ≡ defs = ground arith in
      subst
        (λ ds.
          (length ds ≡ 0) × All (λ def. All (Scoped header_name names) (templates def.body)) ds)
        same (refl, tt)
  compile_defs-Scoped (spec ∷ specs) names defs h =
      let add : VarBody Regex → List (VarDef Regex) → Result VarError (List (VarDef Regex)) =
        λ body rest. ok (record { name = spec.name; body = body } ∷ rest) in
      let (body, first, h2) =
        bind_ok (compile_body R header_name spec names)
          (λ body. compile_defs R header_name specs names >>= λ rest. add body rest) defs h in
      let (rest, inside, last) =
        bind_ok (compile_defs R header_name specs names) (λ rest. add body rest) defs h2 in
      let (size, scoped) = compile_defs-Scoped specs names rest inside in
      let def : VarDef Regex = record { name = spec.name; body = body } in
      let same : def ∷ rest ≡ defs = ground arith in
      subst
        (λ ds.
          (length ds ≡ suc (length specs))
          × All (λ def. All (Scoped header_name names) (templates def.body)) ds)
        same (ap suc size, (compile_body-Scoped spec names body first, scoped))

add_ids-origin :
    (ids vs : List ℕ) (d : ℕ)
    → contains_id (add_ids ids vs) d ≡ true
    → (contains_id ids d ≡ true) ⊎ (contains_id vs d ≡ true)
unfolding add_ids contains_id
add_ids-origin ids [] d h = inl h
add_ids-origin ids (v ∷ vs) d h = elim (Bool-cases (contains_id ids v)) [
  | inl c ↦ elim (add_ids-origin ids vs d (ground arith)) [
    | inl k ↦ inl k
    | inr k ↦ inr (ground arith)
  ]
  | inr c ↦ elim (add_ids-origin (ids ++ v ∷ []) vs d (ground arith)) [
    | inr k ↦ inr (ground arith)
    | inl k ↦ elim (Bool-cases (v == d)) [
      | inl e ↦ inr (ground arith)
      | inr e ↦ inl (contains_id-snoc_other ids v d e k)
    ]
  ]
]

-- What a list of templates refers to is referred to by one of them.
add_deps-origin :
    (P : ℕ → Type 0) (ids : List ℕ) (ts : List (List Part)) (d : ℕ)
    → All (λ t. (i : ℕ) → contains_id (refs t).vars i ≡ true → P i) ts
    → contains_id (add_deps ids ts) d ≡ true
    → (contains_id ids d ≡ true) ⊎ P d
unfolding add_deps
add_deps-origin P ids [] d a h = inl h
add_deps-origin P ids (t ∷ ts) d (a, as_) h =
    elim (add_deps-origin P (add_ids ids (refs t).vars) ts d as_ h) [
      | inr k ↦ inr k
      | inl k ↦ elim (add_ids-origin ids (refs t).vars d k) [ inl j ↦ inl j | inr j ↦ inr (a d j) ]
    ]

All-get :
    {A : Type 0} (P : A → Type 0) (xs : List A) (i : ℕ) (a : A)
    → All P xs
    → get_elem? xs i ≡ some a
    → P a
All-get P [] i a h e = absurd (ground arith)
All-get P (x ∷ xs) zero a (h, hs) e = let same : x ≡ a = ground arith in subst P same h
All-get P (x ∷ xs) (suc i) a (h, hs) e = All-get P xs i a hs e

-- Every variable that a compiled table refers to has a name.
pub deps_of-IsNamed :
    {Regex : Type 0} (table : VarTable Regex) (names : VarNames) (header_name : Text → Option Text)
    → All (λ def. All (Scoped header_name names) (templates def.body)) table.defs
    → (i d : ℕ) → contains_id (deps_of table i) d ≡ true
    → IsNamed names d
unfolding deps_of body_deps contains_id
deps_of-IsNamed table names header_name a i d h = elim (Option-cases (get_elem? table.defs i)) [
  | inl e ↦ absurd (ground arith)
  | inr (def, e) ↦
      let body : contains_id (body_deps def.body) d ≡ true = ground arith in
      elim (add_deps-origin (IsNamed names) [] (templates def.body) d
        (All-get (λ def. All (Scoped header_name names) (templates def.body)) table.defs i def a e)
        body) [ inl k ↦ absurd (ground arith) | inr k ↦ k ]
]
