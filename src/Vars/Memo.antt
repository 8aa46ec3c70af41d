-- ===== src/Vars/Memo.antt =====
-- The memoised values of src/vars.rs are the values.
use hypershunt.Prelude.{
  ℕ, zero, suc, ◌≤◌, ◌<◌, ◌≡◌, refl, sym, ap, subst, ◌∙◌, Option, none, some, List, [], ◌∷◌, length,
  get_elem?, set, ◌==◌, arith, Bool-cases, Option-cases, inl, inr, length-set, get_elem?-set_same,
  get_elem?-in_range, get_elem?-beyond, get_elem?-none, get_elem?-some, get_elem?-set_other,
}
use hypershunt.Prelude.Text.{Text}
use hypershunt.Prelude.Result.{ok}
use hypershunt.Headers.{RequestContext, header_value}
use hypershunt.Headers.Refs.{TemplateRefs, refs, Agrees, render-refs}
use hypershunt.Headers.Render.{render_inner}
use hypershunt.Vars.Defs.{
  RegexOps, Arm, VarBody, const, matching, VarDef, VarTable, add_ids, add_deps, arm_values,
  templates, body_deps, deps_of,
}
use hypershunt.Vars.Values.{Slots, eval_arms, eval_body, eval_in, set_once, scope_get, value}
use hypershunt.Vars.Marks.{Ranked}
-- All variables of a template hold of a property.
use hypershunt.Vars.Rendering.{Each, Answers, add_deps-first, eval_body_in-eval_body}

-- Two contexts that differ in their variables only, and agree on those that a template names.
vars-Agrees :
    (ctx : RequestContext) (v w : ℕ → Text) (r : TemplateRefs)
    → Each (λ d. v d ≡ w d) r.vars
    → Agrees r (record ctx { vars = v }) (record ctx { vars = w })
unfolding header_value
vars-Agrees ctx v w r h = record {
  client_ip = refl;
  username = λ a. refl;
  groups = λ a. refl;
  method = refl;
  path = refl;
  query = refl;
  path_and_query = refl;
  host = refl;
  scheme = refl;
  client_cert_subject = refl;
  client_cert_sans = refl;
  country = λ a. refl;
  headers = λ n a. refl;
  vars = h;
}

module _ {Regex : Type 0} (R : RegexOps Regex) (ctx : RequestContext) (v w : ℕ → Text) where
  abbrev with_v : RequestContext
  with_v = record ctx { vars = v }

  abbrev with_w : RequestContext
  with_w = record ctx { vars = w }

  eval_arms-vars :
      (ids : List ℕ) (input : Text) (arms : List (Arm Regex))
      → Each (λ d. v d ≡ w d) (add_deps ids (arm_values arms))
      → eval_arms R with_v input arms ≡ eval_arms R with_w input arms
  unfolding eval_arms arm_values
  eval_arms-vars ids input [] h = refl
  eval_arms-vars ids input (arm ∷ arms) h =
      let first = add_deps-first (λ d. v d ≡ w d) ids arm.value (arm_values arms) h in
      let render = λ (caps : Option (ℕ → Option Text)).
        render-refs caps with_v with_w arm.value (vars-Agrees ctx v w (refs arm.value) first) in
      elim (Option-cases arm.regex) [
        | inl e ↦ rw e (render none)
        | inr (re, e) ↦ elim (Option-cases (R.captures re input)) [
          | inr (caps, c) ↦ rw (e, c) (render (some caps))
          | inl c ↦
              rw (e, c)
                (eval_arms-vars (add_ids ids (refs arm.value).vars) input arms
                  (unfold add_deps in h))
        ]
      ]

  eval_body-vars :
      (body : VarBody Regex)
      → Each (λ d. v d ≡ w d) (body_deps body)
      → eval_body R with_v body ≡ eval_body R with_w body
  unfolding eval_body body_deps templates
  eval_body-vars (const t) h =
      render-refs none with_v with_w t
        (vars-Agrees ctx v w (refs t) (add_deps-first (λ d. v d ≡ w d) [] t [] h))
  eval_body-vars (matching input arms) h =
      let first = add_deps-first (λ d. v d ≡ w d) [] input (arm_values arms) h in
      let same = render-refs none with_v with_w input (vars-Agrees ctx v w (refs input) first) in
      ap (λ i. eval_arms R with_v i arms) same
      ∙ eval_arms-vars (add_ids [] (refs input).vars) (render_inner with_w none input) arms
          (unfold add_deps in h)

module _ {Regex : Type 0} (R : RegexOps Regex) (table : VarTable Regex) (ctx : RequestContext) where
  -- The references of a definition are those of the variable.
  deps_of-body :
      (id : ℕ) (def : VarDef Regex) (P : ℕ → Type 0)
      → get_elem? table.defs id ≡ some def
      → Each P (deps_of table id)
      → Each P (body_deps def.body)
  unfolding deps_of
  deps_of-body id def P e h =
      let same : deps_of table id ≡ body_deps def.body = rw (e, deps_of) refl in
      subst (Each P) same h

  -- More fuel than the chains of references are long changes nothing.
  value-Ranked :
      (k f g id : ℕ)
      → Ranked (deps_of table) k id
      → k ≤ f
      → k ≤ g
      → value R table f ctx id ≡ value R table g ctx id
  unfolding value
  value-Ranked zero f g id r h l = absurd r
  value-Ranked (suc k) zero g id r h l = absurd (omega arith)
  value-Ranked (suc k) (suc f) zero id r h l = absurd (omega arith)
  value-Ranked (suc k) (suc f) (suc g) id r h l = elim (Option-cases (get_elem? table.defs id)) [
    | inl e ↦ rw (e, value) refl
    | inr (def, e) ↦
        rw (e, value)
          (eval_body-vars R ctx (value R table f ctx) (value R table g ctx) def.body (
            deps_of-body id def (λ d. value R table f ctx d ≡ value R table g ctx d) e
              (λ d c. value-Ranked k f g d (r d c) (omega arith) (omega arith))))
  ]

  -- The value is what the body gives if the variables inside have their values.
  value-body :
      (k most id : ℕ) (def : VarDef Regex)
      → Ranked (deps_of table) k id
      → k ≤ most
      → get_elem? table.defs id ≡ some def
      → eval_body R (record ctx { vars = value R table most ctx }) def.body
        ≡ value R table most ctx id
  unfolding value
  value-body zero most id def r h e = absurd r
  value-body (suc k) zero id def r h e = absurd (omega arith)
  value-body (suc k) (suc m) id def r h e =
      eval_body-vars R ctx (value R table (suc m) ctx) (value R table m ctx) def.body (
        deps_of-body id def (λ d. value R table (suc m) ctx d ≡ value R table m ctx d) e
          (λ d c. value-Ranked k (suc m) m d (r d c) (omega arith) (omega arith)))
      ∙ rw (e, value) refl

  value-beyond : (fuel id : ℕ) → get_elem? table.defs id ≡ none → value R table fuel ctx id ≡ []
  unfolding value
  value-beyond zero id e = refl
  value-beyond (suc fuel) id e = rw (e, value) refl

  module _ (most : ℕ) where
    abbrev val : ℕ → Text
    val = value R table most ctx

    -- Every slot that is set holds its variable's value.
    pub record Filled (slots : Slots) : Type 0 where
      pub size : length slots ≡ length table.defs
      pub right : (j : ℕ) (v : Text) → get_elem? slots j ≡ some (some v) → v ≡ val j

    set_once-Filled :
        (id : ℕ) (s : Slots)
        → Filled s
        → id < length table.defs
        → (t : Slots) × (set_once R table id (val id) s ≡ (val id, t)) × Filled t
    unfolding set_once
    set_once-Filled id s h l = elim (Option-cases (get_elem? s id)) [
      | inl e ↦ absurd (get_elem?-in_range s id (omega (arith, h.size)) e)
      | inr (some v, e) ↦ (s, rw (e, set_once) (ap (λ x. (x, s)) (h.right id v e)), h)
      | inr (none, e) ↦ (
        set s id (some (val id)),
        rw (e, set_once) refl,
        record {
          size = length-set s id (some (val id)) ∙ h.size;
          right = λ j v g. elim (Bool-cases (id == j)) [
            | inr d ↦ h.right j v (sym (get_elem?-set_other s id j (some (val id)) d) ∙ g)
            | inl d ↦
                let same : id ≡ j = ground arith in
                let here = get_elem?-set_same s id none (some (val id)) e in
                let there : get_elem? (set s id (some (val id))) id ≡ some (some v) =
                  subst (λ i. get_elem? (set s id (some (val id))) i ≡ some (some v)) (sym same)
                    g in
                let text : v ≡ val id = ground (arith, here, there) in text ∙ ap val same
          ];
        },
      )
    ]

    pub scope_get-Filled :
        (k fuel id : ℕ) (s : Slots)
        → Ranked (deps_of table) k id
        → k ≤ fuel
        → k ≤ most
        → Filled s
        → (t : Slots) × (scope_get R table fuel ctx id s ≡ ok (val id, t)) × Filled t
    unfolding scope_get eval_in
    scope_get-Filled zero fuel id s r h l f = absurd r
    scope_get-Filled (suc k) zero id s r h l f = absurd (omega arith)
    scope_get-Filled (suc k) (suc fuel) id s r h l f = elim (Option-cases (get_elem? s id)) [
      | inl e ↦
          let beyond =
            get_elem?-beyond table.defs id (omega (arith, get_elem?-none s id e, f.size)) in
          (s, rw (e, scope_get, value-beyond most id beyond) refl, f)
      | inr (some v, e) ↦ (s, rw (e, scope_get) (ap (λ x. ok (x, s)) (f.right id v e)), f)
      | inr (none, e) ↦
          let short : id < length table.defs = omega (arith, get_elem?-some s id none e, f.size) in
          elim (Option-cases (get_elem? table.defs id)) [
            | inl g ↦ absurd (get_elem?-in_range table.defs id short g)
            | inr (def, g) ↦
                let (t, b, ft) =
                  eval_body_in-eval_body R (scope_get R table fuel ctx) ctx val Filled def.body s
                    (deps_of-body id def (Answers (scope_get R table fuel ctx) ctx val Filled) g
                      (λ d c u fu.
                        scope_get-Filled k fuel d u (r d c) (omega arith) (omega arith) fu))
                    f in
                let (u, o, fu) = set_once-Filled id t ft short in
                (
                  u,
                  rw (e, scope_get, eval_in, g, b, value-body (suc k) most id def r l g, o) refl,
                  fu,
                )
          ]
    ]
