-- ===== src/Vars/Cycles.antt =====
-- `check_cycles` and `cycle_dfs` of src/vars.rs: the depth-first search, with the fuel of the recursion
-- written out.
use hypershunt.Prelude.{
  ℕ, zero, suc, Option, none, some, List, [], ◌∷◌, ◌++◌, length, get_elem?, set, drop, replicate,
  ◌==◌, if◌then◌else◌, map,
}
use hypershunt.Prelude.Text.{Text}
use hypershunt.Prelude.Result.{Result, ok, err, ◌>>=◌}
use hypershunt.Vars.Defs.{VarTable, deps_of}

-- The error names the chain; `index_panic` is an index out of range.
pub data CycleError : Type 0 where
  cycle : List Text → CycleError
  index_panic out_of_fuel : CycleError

-- The bytes 0, 1 and 2 of `state`.
pub data Mark : Type 0 where
  unvisited on_path done : Mark

pub record Search : Type 0 where
  pub state : List Mark
  pub stack : List ℕ

-- `stack.iter().position(|&x| x == i).unwrap_or_default()`.
unfoldable pub position : ℕ → List ℕ → Option ℕ
position i [] = none
position i (x ∷ xs) =
    if x == i then some 0 else elim (position i xs) [ some k ↦ some (suc k) | none ↦ none ]

unfoldable pub position_or_zero : ℕ → List ℕ → ℕ
unfolding position
position_or_zero i stack = elim (position i stack) [ some k ↦ k | none ↦ 0 ]

-- `for d in .. { visit(d)?; }`.
unfoldable pub visit_all :
    (ℕ → Search → Result CycleError Search) → List ℕ → Search → Result CycleError Search
visit_all visit [] s = ok s
visit_all visit (d ∷ ds) s = visit d s >>= λ t. visit_all visit ds t

-- The last element of the stack goes.
unfoldable pub pop : List ℕ → List ℕ
pop [] = []
pop (x ∷ []) = []
pop (x ∷ y ∷ xs) = x ∷ pop (y ∷ xs)

unfoldable pub enter : ℕ → Search → Search
enter i s = record { state = set s.state i on_path; stack = s.stack ++ i ∷ [] }

unfoldable pub leave : ℕ → Search → Search
unfolding pop
leave i s = record { state = set s.state i done; stack = pop s.stack }

abbrev pub up_from : ℕ → ℕ → List ℕ
up_from i zero = []
up_from i (suc n) = i ∷ up_from (suc i) n

module _ {Regex : Type 0} (table : VarTable Regex) where
  unfoldable pub name_of : ℕ → Text
  name_of i = elim (get_elem? table.defs i) [ some def ↦ def.name | none ↦ [] ]

  unfoldable pub cycle_dfs : ℕ → ℕ → Search → Result CycleError Search
  unfolding visit_all enter leave name_of position_or_zero
  cycle_dfs zero i s = err out_of_fuel
  cycle_dfs (suc fuel) i s =
      let below =
        visit_all (cycle_dfs fuel) (deps_of table i) (enter i s) >>= λ t. ok (leave i t) in
      elim (get_elem? s.state i) [
        | none ↦ err index_panic
        | some done ↦ ok s
        | some on_path ↦
            err (cycle (map name_of (drop (position_or_zero i s.stack) s.stack ++ i ∷ [])))
        | some unvisited ↦ below
      ]

  abbrev pub nothing_visited : Search
  nothing_visited = record { state = replicate (length table.defs) unvisited; stack = [] }

  -- A call nests in another only after a variable is marked: so many marks, and one call more.
  unfoldable pub check_cycles : Result CycleError Search
  unfolding cycle_dfs
  check_cycles =
      visit_all (cycle_dfs (suc (length table.defs))) (up_from 0 (length table.defs))
        nothing_visited
