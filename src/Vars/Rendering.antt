-- ===== src/Vars/Rendering.antt =====
-- The renderer with slots as a state gives what the renderer gives, if each variable in the template
-- answers with its value.
use hypershunt.Prelude.{
  ℕ, ◌⊎◌, ◌≡◌, refl, sym, ap, subst, true, Option, none, some, List, [], ◌∷◌, ◌++◌, ◌==◌, arith,
  Bool-cases, Option-cases, inl, inr,
}
use hypershunt.Prelude.Text.{Text}
use hypershunt.Prelude.Result.{ok}
use hypershunt.Headers.{
  KnownVar, client_ip, username, groups, method, path, query, path_and_query, host, scheme,
  client_cert_subject, client_cert_sans, country, Part, literal, var, custom, header, capture,
  unknown, RequestContext, header_value,
}
use hypershunt.Headers.Refs.{
  TemplateRefs, contains_id, no_refs, add_ref, refs_from, refs, contains_id-append_left,
  contains_id-snoc, refs_from-Extends,
}
use hypershunt.Headers.Render.{known_value, render_inner, render_part, or_fallback}
use hypershunt.Vars.Defs.{
  RegexOps, Arm, VarBody, const, matching, add_ids, add_deps, arm_values, templates, body_deps,
}
use hypershunt.Vars.Values.{
  Slots, Rendered, render_part_in, render_in, eval_arms, eval_body, eval_arms_in, eval_body_in,
}

-- All variables of a template hold of a property.
abbrev pub Each : (ℕ → Type 0) → List ℕ → Type 0
Each P ids = (d : ℕ) → contains_id ids d ≡ true → P d

pub add_ids-contains_id :
    (ids vs : List ℕ) (d : ℕ)
    → (contains_id ids d ≡ true → contains_id (add_ids ids vs) d ≡ true)
      × (contains_id vs d ≡ true → contains_id (add_ids ids vs) d ≡ true)
unfolding add_ids contains_id
add_ids-contains_id ids [] d = (λ h. h, λ h. absurd (ground arith))
add_ids-contains_id ids (v ∷ vs) d = elim (Bool-cases (contains_id ids v)) [
  | inl c ↦
      let (kept, added) = add_ids-contains_id ids vs d in
      rw c (
        kept,
        λ h. elim (Bool-cases (v == d)) [
          | inl e ↦ kept (subst (λ k. contains_id ids k ≡ true) (ground arith) c)
          | inr e ↦ added (ground arith)
        ],
      )
  | inr c ↦
      let (kept, added) = add_ids-contains_id (ids ++ v ∷ []) vs d in
      rw c (
        λ h. kept (contains_id-append_left ids (v ∷ []) d h),
        λ h. elim (Bool-cases (v == d)) [
          | inl e ↦ kept (
              subst (λ k. contains_id (ids ++ v ∷ []) k ≡ true) (ground arith)
                (contains_id-snoc ids v))
          | inr e ↦ added (ground arith)
        ],
      )
]

pub add_deps-kept :
    (ids : List ℕ) (ts : List (List Part)) (d : ℕ)
    → contains_id ids d ≡ true
    → contains_id (add_deps ids ts) d ≡ true
unfolding add_deps
add_deps-kept ids [] d h = h
add_deps-kept ids (t ∷ ts) d h =
    add_deps-kept (add_ids ids (refs t).vars) ts d ((add_ids-contains_id ids (refs t).vars d).0 h)

-- A property of all that a body refers to is one of all that its first template does, and the others.
pub add_deps-first :
    (P : ℕ → Type 0) (ids : List ℕ) (t : List Part) (ts : List (List Part))
    → Each P (add_deps ids (t ∷ ts))
    → Each P (refs t).vars
unfolding add_deps
add_deps-first P ids t ts h d c =
    h d (
      add_deps-kept (add_ids ids (refs t).vars) ts d
        ((add_ids-contains_id ids (refs t).vars d).1 c))

add_ref-custom :
    (r : TemplateRefs) (id : ℕ) (fb : Option Text)
    → contains_id (add_ref r (custom id fb)).vars id ≡ true
unfolding add_ref
add_ref-custom r id fb = ground (arith, contains_id-snoc r.vars id)

module _ (get : ℕ → Slots → Rendered) (ctx : RequestContext) (val : ℕ → Text)
    (Sound : Slots → Type 0) where
  abbrev pub Answers : ℕ → Type 0
  Answers d = (s : Slots) → Sound s → (t : Slots) × (get d s ≡ ok (val d, t)) × Sound t

  abbrev pub with_values : RequestContext
  with_values = record ctx { vars = val }

  module _ (caps : Option (ℕ → Option Text)) where
    abbrev Plain : Part → Type 0
    Plain p = (s : Slots) → render_part_in get ctx caps p s ≡ ok (render_part with_values caps p, s)

    render_part_in-Plain :
        (p : Part) → ((id : ℕ) × (fb : Option Text) × (p ≡ custom id fb)) ⊎ Plain p
    unfolding render_part_in render_part header_value known_value
    render_part_in-Plain (custom id fb) = inl (id, fb, refl)
    render_part_in-Plain (literal l) = inr (λ s. refl)
    render_part_in-Plain (unknown l) = inr (λ s. refl)
    render_part_in-Plain (capture i fb) = inr (λ s. refl)
    render_part_in-Plain (header n fb) = inr (λ s. refl)
    render_part_in-Plain (var v fb) = inr (λ s. ap (λ x. ok (or_fallback x fb, s)) (same v))
      where
        same : (v : KnownVar) → known_value v ctx ≡ known_value v with_values
        same client_ip = refl
        same username = refl
        same groups = refl
        same method = refl
        same path = refl
        same query = refl
        same path_and_query = refl
        same host = refl
        same scheme = refl
        same client_cert_subject = refl
        same client_cert_sans = refl
        same country = refl

    render_part_in-custom :
        (p : Part) (id : ℕ) (fb : Option Text) (s t : Slots)
        → p ≡ custom id fb
        → get id s ≡ ok (val id, t)
        → render_part_in get ctx caps p s ≡ ok (render_part with_values caps p, t)
    unfolding render_part_in render_part
    render_part_in-custom p id fb s t same e =
        subst (λ q. render_part_in get ctx caps q s ≡ ok (render_part with_values caps q, t))
          (sym same) (rw e refl)

    abbrev pub Renders : List Part → Slots → Type 0
    Renders parts s =
        (t : Slots) × (render_in get ctx caps parts s ≡ ok (render_inner with_values caps parts, t))
        × Sound t

    render_from :
        (r : TemplateRefs) (parts : List Part) (s : Slots)
        → Each Answers (refs_from r parts).vars
        → Sound s
        → Renders parts s
    unfolding render_in render_inner refs_from
    render_from r [] s h k = (s, refl, k)
    render_from r (p ∷ parts) s h k = elim (render_part_in-Plain p) [
      | inr plain ↦
          let (u, f, ku) = render_from (add_ref r p) parts s h k in (u, rw (plain s, f) refl, ku)
      | inl (id, fb, same) ↦
          let named : contains_id (add_ref r p).vars id ≡ true =
            subst (λ q. contains_id (add_ref r q).vars id ≡ true) (sym same)
              (add_ref-custom r id fb) in
          let (t, e, kt) = h id ((refs_from-Extends (add_ref r p) parts).vars id named) s k in
          let (u, f, ku) = render_from (add_ref r p) parts t h kt in
          (u, rw (render_part_in-custom p id fb s t same e, f) refl, ku)
    ]

    pub render_in-render_inner :
        (parts : List Part) (s : Slots) → Each Answers (refs parts).vars → Sound s → Renders parts s
    unfolding refs
    render_in-render_inner parts s h k = render_from no_refs parts s h k

module _ {Regex : Type 0} (R : RegexOps Regex) (get : ℕ → Slots → Rendered) (ctx : RequestContext)
    (val : ℕ → Text) (Sound : Slots → Type 0) where
  abbrev pub Evaluates : Rendered → Text → Type 0
  Evaluates r v = (t : Slots) × (r ≡ ok (v, t)) × Sound t

  eval_arms_in-skip :
      (input : Text) (arm : Arm Regex) (arms : List (Arm Regex)) (re : Regex) (s : Slots)
      {t : Slots}
      → arm.regex ≡ some re
      → R.captures re input ≡ none
      → eval_arms_in R get ctx input arms s
        ≡ ok (eval_arms R (record ctx { vars = val }) input arms, t)
      → eval_arms_in R get ctx input (arm ∷ arms) s
        ≡ ok (eval_arms R (record ctx { vars = val }) input (arm ∷ arms), t)
  unfolding eval_arms_in eval_arms
  eval_arms_in-skip input arm arms re s e c f = rw (e, c) f

  eval_arms_in-eval_arms :
      (ids : List ℕ) (input : Text) (arms : List (Arm Regex)) (s : Slots)
      → Each (Answers get ctx val Sound) (add_deps ids (arm_values arms))
      → Sound s
      → Evaluates
          (eval_arms_in R get ctx input arms s)
          (eval_arms R (record ctx { vars = val }) input arms)
  unfolding eval_arms_in eval_arms arm_values
  eval_arms_in-eval_arms ids input [] s h k = (s, refl, k)
  eval_arms_in-eval_arms ids input (arm ∷ arms) s h k =
      let first = add_deps-first (Answers get ctx val Sound) ids arm.value (arm_values arms) h in
      let render = λ (caps : Option (ℕ → Option Text)).
        render_in-render_inner get ctx val Sound caps arm.value s first k in
      elim (Option-cases arm.regex) [
        | inl e ↦ let (t, f, kt) = render none in (t, rw e f, kt)
        | inr (re, e) ↦ elim (Option-cases (R.captures re input)) [
          | inr (caps, c) ↦ let (t, f, kt) = render (some caps) in (t, rw (e, c) f, kt)
          | inl c ↦
              let (t, f, kt) =
                eval_arms_in-eval_arms (add_ids ids (refs arm.value).vars) input arms s
                  (unfold add_deps in h) k in
              (t, eval_arms_in-skip input arm arms re s e c f, kt)
        ]
      ]

  pub eval_body_in-eval_body :
      (body : VarBody Regex) (s : Slots)
      → Each (Answers get ctx val Sound) (body_deps body)
      → Sound s
      → Evaluates (eval_body_in R get ctx body s) (eval_body R (record ctx { vars = val }) body)
  unfolding eval_body_in eval_body body_deps templates
  eval_body_in-eval_body (const t) s h k =
      render_in-render_inner get ctx val Sound none t s
        (add_deps-first (Answers get ctx val Sound) [] t [] h) k
  eval_body_in-eval_body (matching input arms) s h k =
      let first = add_deps-first (Answers get ctx val Sound) [] input (arm_values arms) h in
      let (t, e, kt) = render_in-render_inner get ctx val Sound none input s first k in
      let (u, f, ku) =
        eval_arms_in-eval_arms (add_ids [] (refs input).vars)
          (render_inner (record ctx { vars = val }) none input) arms t (unfold add_deps in h) kt in
      (u, rw (e, f) refl, ku)
