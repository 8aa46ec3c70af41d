-- ===== src/Vars/Defs.antt =====
-- The specifications of variables (src/config/mod.rs), the compiled table of src/vars.rs and what its
-- templates refer to.
use hypershunt.Prelude.{ℕ, Option, none, some, List, [], ◌∷◌, ◌++◌, get_elem?, if◌then◌else◌}
use hypershunt.Prelude.Text.{Text}
use hypershunt.Headers.{Part, VarNames}
use hypershunt.Headers.Refs.{contains_id, refs}

-- An arm with no pattern is the `_` catch-all.
pub record VariableArm : Type 0 where
  pub pattern : Option Text
  pub value : Text
  pub line : ℕ

pub data VariableBody : Type 0 where
  constant : Text → VariableBody
  match_on : Text → List VariableArm → VariableBody

pub record VariableDef : Type 0 where
  pub name : Text
  pub body : VariableBody
  pub line : ℕ

-- The regex crate: `Regex::new`, `captures_len`, `capture_names` and `captures`.
pub record RegexOps (Regex : Type 0) : Type 0 where
  pub new : Text → Option Regex
  pub captures_len : Regex → ℕ
  pub capture_names : Regex → List (Option Text)
  pub captures : Regex → Text → Option (ℕ → Option Text)

pub record Arm (Regex : Type 0) : Type 0 where
  pub regex : Option Regex
  pub value : List Part

pub data VarBody (Regex : Type 0) : Type 0 where
  const : List Part → VarBody Regex
  matching : List Part → List (Arm Regex) → VarBody Regex

-- The needs of a definition stand in a list of their own: `compute_needs` of Needs.
pub record VarDef (Regex : Type 0) : Type 0 where
  pub name : Text
  pub body : VarBody Regex

pub record VarTable (Regex : Type 0) : Type 0 where
  pub defs : List (VarDef Regex)
  pub names : VarNames

-- `add` of `deps_of`, for the variables of one template.
unfoldable pub add_ids : List ℕ → List ℕ → List ℕ
unfolding contains_id
add_ids ids [] = ids
add_ids ids (v ∷ vs) = add_ids (if contains_id ids v then ids else ids ++ v ∷ []) vs

unfoldable pub add_deps : List ℕ → List (List Part) → List ℕ
unfolding add_ids refs
add_deps ids [] = ids
add_deps ids (t ∷ ts) = add_deps (add_ids ids (refs t).vars) ts

module _ {Regex : Type 0} where
  unfoldable pub arm_values : List (Arm Regex) → List (List Part)
  arm_values [] = []
  arm_values (a ∷ rest) = a.value ∷ arm_values rest

  -- The match input and every arm's value, or the constant template.
  unfoldable pub templates : VarBody Regex → List (List Part)
  unfolding arm_values
  templates (const t) = t ∷ []
  templates (matching input arms) = input ∷ arm_values arms

  unfoldable pub body_deps : VarBody Regex → List ℕ
  unfolding add_deps templates
  body_deps body = add_deps [] (templates body)

  -- No variable is referenced where there is no definition; the source indexes, and never past the end.
  unfoldable pub deps_of : VarTable Regex → ℕ → List ℕ
  unfolding body_deps
  deps_of table i = elim (get_elem? table.defs i) [ some def ↦ body_deps def.body | none ↦ [] ]
