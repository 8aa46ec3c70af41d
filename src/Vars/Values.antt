-- ===== src/Vars/Values.antt =====
-- `VarTable::eval` and `VarScope::get` of src/vars.rs. A slot is a `OnceLock`, empty or set; the renderer
-- of src/headers.rs is written with the slots as a state, since a variable's slot is set while a
-- template is rendered.
use hypershunt.Prelude.{
  ℕ, zero, suc, Option, none, some, List, [], ◌∷◌, ◌++◌, length, get_elem?, set, replicate,
}
use hypershunt.Prelude.Text.{Text}
use hypershunt.Prelude.Result.{Result, ok, err, ◌>>=◌}
use hypershunt.Headers.{Part, custom, RequestContext}
use hypershunt.Headers.Render.{render_inner, render_part, or_fallback}
use hypershunt.Vars.Defs.{RegexOps, Arm, VarBody, const, matching, VarTable}

abbrev pub Slots : Type 0
Slots = List (Option Text)

-- A text and the slots; the error is a recursion that is cut off.
abbrev pub Rendered : Type 0
Rendered = Result (Unit {0}) (Text × Slots)

module _ (get : ℕ → Slots → Rendered) (ctx : RequestContext) (caps : Option (ℕ → Option Text)) where
  unfoldable pub render_part_in : Part → Slots → Rendered
  unfolding or_fallback render_part
  render_part_in (custom id fb) slots = get id slots >>= λ p. ok (or_fallback (p.0) fb, p.1)
  render_part_in p slots = ok (render_part ctx caps p, slots)

  unfoldable pub render_in : List Part → Slots → Rendered
  unfolding render_part_in
  render_in [] slots = ok ([], slots)
  render_in (p ∷ parts) slots =
      render_part_in p slots >>= λ a. render_in parts (a.1) >>= λ b. ok (a.0 ++ b.0, b.1)

module _ {Regex : Type 0} (R : RegexOps Regex) where
  -- The first arm whose regex matches the input, or that has none, gives the value.
  unfoldable pub eval_arms : RequestContext → Text → List (Arm Regex) → Text
  unfolding render_inner
  eval_arms ctx input [] = []
  eval_arms ctx input (arm ∷ arms) = elim arm.regex [
    | none ↦ render_inner ctx none arm.value
    | some re ↦ elim (R.captures re input) [
      | some caps ↦ render_inner ctx (some caps) arm.value
      | none ↦ eval_arms ctx input arms
    ]
  ]

  unfoldable pub eval_body : RequestContext → VarBody Regex → Text
  unfolding eval_arms
  eval_body ctx (const t) = render_inner ctx none t
  eval_body ctx (matching input arms) = eval_arms ctx (render_inner ctx none input) arms

  module _ (get : ℕ → Slots → Rendered) (ctx : RequestContext) where
    unfoldable pub eval_arms_in : Text → List (Arm Regex) → Slots → Rendered
    unfolding render_in
    eval_arms_in input [] slots = ok ([], slots)
    eval_arms_in input (arm ∷ arms) slots = elim arm.regex [
      | none ↦ render_in get ctx none arm.value slots
      | some re ↦ elim (R.captures re input) [
        | some caps ↦ render_in get ctx (some caps) arm.value slots
        | none ↦ eval_arms_in input arms slots
      ]
    ]

    unfoldable pub eval_body_in : VarBody Regex → Slots → Rendered
    unfolding eval_arms_in
    eval_body_in (const t) slots = render_in get ctx none t slots
    eval_body_in (matching input arms) slots =
        render_in get ctx none input slots >>= λ p. eval_arms_in (p.0) arms (p.1)

  module _ (table : VarTable Regex) where
    unfoldable pub new_slots : Slots
    new_slots = replicate (length table.defs) none

    -- `eval`, with what `get` answers for the variables inside.
    unfoldable pub eval_in : (ℕ → Slots → Rendered) → ℕ → RequestContext → Slots → Rendered
    unfolding eval_body_in
    eval_in get id ctx slots = elim (get_elem? table.defs id) [
      | some def ↦ eval_body_in get ctx def.body slots
      | none ↦ ok ([], slots)
    ]

    -- `OnceLock::set` leaves a slot that is set, and the answer is what the slot then holds.
    unfoldable pub set_once : ℕ → Text → Slots → Text × Slots
    set_once id v slots = elim (get_elem? slots id) [
      | some (some w) ↦ (w, slots)
      | some none ↦ (v, set slots id (some v))
      | none ↦ ([], slots)
    ]

    unfoldable pub scope_get : ℕ → RequestContext → ℕ → Slots → Rendered
    unfolding eval_in set_once
    scope_get zero ctx id slots = err tt
    scope_get (suc fuel) ctx id slots =
        let computed =
          eval_in (scope_get fuel ctx) id ctx slots >>= λ p. ok (set_once id (p.0) (p.1)) in
        elim (get_elem? slots id) [
          | none ↦ ok ([], slots)
          | some (some v) ↦ ok (v, slots)
          | some none ↦ computed
        ]

    -- The value of a variable without slots: what its templates give if each variable inside is
    -- computed anew.
    unfoldable pub value : ℕ → RequestContext → ℕ → Text
    unfolding eval_body
    value zero ctx id = []
    value (suc fuel) ctx id = elim (get_elem? table.defs id) [
      | some def ↦ eval_body (record ctx { vars = value fuel ctx }) def.body
      | none ↦ []
    ]
