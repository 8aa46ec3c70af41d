-- ===== src/Vars/Build.antt =====
-- `valid_name`, `build_layered`, `compile_body` and `compile_arm` of src/vars.rs.
use hypershunt.Prelude.{
  ℕ, suc, ◌-◌, Bool, true, false, not, ◌&&◌, ◌||◌, Option, none, some, List, [], ◌∷◌, ◌++◌, length,
  set, all, ltb, ◌==◌, in_range, if◌then◌else◌,
}
use hypershunt.Prelude.Text.{Text, codes, contains_text}
use hypershunt.Prelude.Result.{Result, ok, err, ◌>>=◌, ◌>>◌, guard}
use hypershunt.Headers.{CaptureScope, VarNames, get, insert, known_var}
use hypershunt.Headers.Build.{BuildError, compile, compile_with_captures}
use hypershunt.Vars.Defs.{
  VariableArm, constant, match_on, VariableDef, RegexOps, Arm, VarBody, const, matching, VarDef,
  VarTable,
}
use hypershunt.Vars.Cycles.{CycleError, check_cycles}

-- The errors of a table, with the line that each reports.
pub data VarError : Type 0 where
  invalid_name reserved_name duplicate_name unreachable_arms invalid_pattern : ℕ → VarError
  capture_collision : ℕ → Text → VarError
  bad_template : ℕ → BuildError → VarError
  bad_references : CycleError → VarError
  bad_index : VarError

abbrev pub reserved : List Text
reserved = codes "request_id" ∷ codes "port" ∷ codes "header" ∷ []

abbrev pub is_lower : ℕ → Bool
is_lower c = in_range b'a' b'z' c

unfoldable pub valid_name : Text → Bool
valid_name [] = false
valid_name (c ∷ s) = is_lower c && all (λ b. is_lower b || (in_range b'0' b'9' b || b == b'_')) s

abbrev pub is_builtin : Text → Bool
is_builtin name = elim (known_var name) [ some v ↦ true | none ↦ false ]

-- `e.map_err(..)?`.
abbrev pub map_err {ℓ κ μ} :
    {E : Type ℓ} {F : Type κ} {A : Type μ} → (E → F) → Result E A → Result F A
map_err f (ok a) = ok a
map_err f (err e) = err (f e)

-- The names given out so far, and the innermost definition chosen for each.
pub record Chosen : Type 0 where
  pub names : VarNames
  pub chosen : List VariableDef

unfoldable pub choose : Chosen → VariableDef → Result VarError Chosen
choose c spec = elim (get c.names spec.name) [
  | some id ↦
      if ltb id (length c.chosen)
      then ok (record c { chosen = set c.chosen id spec })
      else err bad_index
  | none ↦ ok (record { names = insert c.names spec.name; chosen = c.chosen ++ spec ∷ [] })
]

-- The loop over one layer, with the names seen in it.
unfoldable pub add_layer : List Text → Chosen → List VariableDef → Result VarError Chosen
unfolding choose valid_name
add_layer seen c [] = ok c
add_layer seen c (spec ∷ specs) =
    guard (valid_name spec.name) (invalid_name spec.line)
    >> guard (not (is_builtin spec.name || contains_text reserved spec.name))
        (reserved_name spec.line)
    >> guard (not (contains_text seen spec.name)) (duplicate_name spec.line)
    >> (choose c spec >>= λ d. add_layer (spec.name ∷ seen) d specs)

unfoldable pub add_layers : Chosen → List (List VariableDef) → Result VarError Chosen
unfolding add_layer
add_layers c [] = ok c
add_layers c (layer ∷ layers) = add_layer [] c layer >>= λ d. add_layers d layers

abbrev pub nothing_chosen : Chosen
nothing_chosen = record { names = record { names = []; index = [] }; chosen = [] }

module _ {Regex : Type 0} (R : RegexOps Regex) (header_name : Text → Option Text) where
  -- `from_regex`: the named groups with their numbers.
  unfoldable pub named_groups : ℕ → List (Option Text) → List (Text × ℕ)
  named_groups i [] = []
  named_groups i (none ∷ rest) = named_groups (suc i) rest
  named_groups i (some n ∷ rest) = (n, i) ∷ named_groups (suc i) rest

  unfoldable pub from_regex : Regex → CaptureScope
  unfolding named_groups
  from_regex re = record {
    groups = R.captures_len re - 1;
    names = named_groups 0 (R.capture_names re);
  }

  abbrev pub no_captures : CaptureScope
  no_captures = record { groups = 0; names = [] }

  unfoldable pub check_captures : VarNames → ℕ → List (Text × ℕ) → Result VarError (Unit {0})
  check_captures names line [] = ok tt
  check_captures names line ((n, i) ∷ rest) =
      guard (not (is_builtin n || is_taken (get names n))) (capture_collision line n)
      >> check_captures names line rest
    where
      is_taken : Option ℕ → Bool
      is_taken none = false
      is_taken (some id) = true

  unfoldable pub compile_arm : VariableArm → VarNames → Result VarError (Arm Regex)
  unfolding from_regex check_captures
  compile_arm arm names = elim arm.pattern [
    | none ↦
        map_err (bad_template arm.line)
          (compile_with_captures header_name arm.value names no_captures)
        >>= λ value. ok (record { regex = none; value = value })
    | some pat ↦ elim (R.new pat) [
      | none ↦ err (invalid_pattern arm.line)
      | some re ↦
          check_captures names arm.line ((from_regex re).names)
          >> (map_err (bad_template arm.line)
                (compile_with_captures header_name arm.value names (from_regex re))
              >>= λ value. ok (record { regex = some re; value = value }))
    ]
  ]

  -- The catch-all must be the last arm.
  unfoldable pub compile_arms : List VariableArm → VarNames → Result VarError (List (Arm Regex))
  unfolding compile_arm
  compile_arms [] names = ok []
  compile_arms (arm ∷ arms) names =
      guard (is_last || has_pattern arm.pattern) (unreachable_arms arm.line)
      >> (compile_arm arm names >>= λ a. compile_arms arms names >>= λ rest. ok (a ∷ rest))
    where
      is_last : Bool
      is_last = elim arms [ [] ↦ true | _ ∷ _ ↦ false ]

      has_pattern : Option Text → Bool
      has_pattern none = false
      has_pattern (some pat) = true

  unfoldable pub compile_body : VariableDef → VarNames → Result VarError (VarBody Regex)
  unfolding compile_arms
  compile_body spec names = elim spec.body [
    | constant t ↦
        map_err (bad_template spec.line) (compile header_name t names) >>= λ parts. ok (const parts)
    | match_on input arms ↦
        map_err (bad_template spec.line) (compile header_name input names) >>= λ parts.
        compile_arms arms names >>= λ compiled. ok (matching parts compiled)
  ]

  unfoldable pub compile_defs : List VariableDef → VarNames → Result VarError (List (VarDef Regex))
  unfolding compile_body
  compile_defs [] names = ok []
  compile_defs (spec ∷ specs) names = compile_body spec names >>= λ body.
      compile_defs specs names >>= λ rest. ok (record { name = spec.name; body = body } ∷ rest)

  unfoldable pub check_table : VarTable Regex → Result VarError (VarTable Regex)
  unfolding check_cycles
  check_table table = map_err bad_references (check_cycles table) >>= λ s. ok table

  -- What is chosen is compiled, and the table checked.
  unfoldable pub build_chosen : Chosen → Result VarError (VarTable Regex)
  unfolding compile_defs check_table
  build_chosen c = compile_defs c.chosen c.names >>= λ defs.
      check_table (record { defs = defs; names = c.names })

  -- The needs of the definitions are computed from the table: `compute_needs` of Needs.
  unfoldable pub build_layered : List (List VariableDef) → Result VarError (VarTable Regex)
  unfolding add_layers build_chosen
  build_layered layers = add_layers nothing_chosen layers >>= λ c. build_chosen c
