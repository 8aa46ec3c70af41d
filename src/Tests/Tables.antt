-- ===== src/Tests/Tables.antt =====
-- Two variables in two layers, one shadowed, and one that refers to the other.
use hypershunt.Prelude.{
  ℕ, zero, suc, ◌<◌, ◌≡◌, refl, true, Option, none, some, List, [], ◌∷◌, get_elem?, if◌then◌else◌,
  arith,
}
use hypershunt.Prelude.Text.{Text, codes, eq_text, split_once, contains_text, strip_prefix}
use hypershunt.Prelude.Result.{ok, err}
use hypershunt.Headers.{
  Part, literal, var, custom, method, RequestContext, get, insert, find_name, known_var,
  header_value,
}
use hypershunt.Headers.Lex.{lex, lex_from, push_literal, make_token}
use hypershunt.Headers.Build.{compile, build, build_tokens, resolve}
use hypershunt.Headers.Render.{render_inner}
use hypershunt.Headers.Refs.{refs, refs_from, add_ref, contains_id}
use hypershunt.Vars.{
  VariableDef, constant, RegexOps, const, VarTable, deps_of, body_deps, add_deps, add_ids,
  templates, arm_values, Search, check_cycles, cycle_dfs, visit_all, enter, leave, Chosen,
  nothing_chosen, choose, add_layer, add_layers, valid_name, compile_defs, compile_body,
  build_chosen, check_table, build_layered, value, eval_body, pop, VarNeeds, no_needs,
  ResolvedNeeds, compute_needs, resolve_all, resolve_needs, merge_deps, merge, direct_needs,
  take_templates, take_refs, add_headers, absorb, merge_vars, bad_references, cycle, position,
  position_or_zero, name_of,
}
use hypershunt.Vars.Acyclic.{FallsAlong, check_cycles-passes}
use hypershunt.Vars.Choice.{effective}
use hypershunt.Vars.Layers.{last_named_layers, add_layers-last_named}
use hypershunt.Vars.Enough.{AgreesOn}
use hypershunt.Vars.Absorb.{absorb-gates}
use hypershunt.Vars.Total.{compute_needs_total}

-- A regex is the text that it matches.
abbrev regex_ops : RegexOps Text
regex_ops = record {
  new = λ s. some s;
  captures_len = λ r. 1;
  capture_names = λ r. none ∷ [];
  captures = λ r s. if eq_text r s then some (λ i. some s) else none;
}

abbrev header_name : Text → Option Text
header_name name = some name

abbrev outer : List VariableDef
outer =
    record { name = codes "a"; body = constant (codes "x{b}"); line = 1 }
    ∷ record { name = codes "b"; body = constant (codes "1"); line = 2 }
    ∷ []

abbrev inner_b : VariableDef
inner_b = record { name = codes "b"; body = constant (codes "{method}"); line = 3 }

abbrev layers : List (List VariableDef)
layers = outer ∷ (inner_b ∷ []) ∷ []

abbrev table : VarTable Text
table = record {
  defs =
      record { name = codes "a"; body = const (literal (codes "x") ∷ custom 1 none ∷ []) }
      ∷ record { name = codes "b"; body = const (var method none ∷ []) }
      ∷ [];
  names = record {
    names = codes "a" ∷ codes "b" ∷ [];
    index = (codes "b", 1) ∷ (codes "a", 0) ∷ [];
  };
}

table_built : build_layered regex_ops header_name layers ≡ ok table
unfolding build_layered add_layers add_layer choose valid_name build_chosen check_table compile_defs
    compile_body compile build build_tokens resolve lex lex_from push_literal make_token known_var
    get insert find_name eq_text split_once strip_prefix contains_text check_cycles cycle_dfs
    visit_all enter leave pop deps_of body_deps add_deps add_ids templates arm_values refs refs_from
    add_ref contains_id
table_built = refl

abbrev ctx : RequestContext
ctx = record {
  client_ip = codes "10.0.0.1";
  username = codes "ada";
  groups = [];
  method = codes "GET";
  path = codes "/";
  query = [];
  path_and_query = codes "/";
  host = codes "h";
  scheme = codes "https";
  client_cert_subject = [];
  client_cert_sans = [];
  country = codes "NZ";
  headers = [];
  vars = λ i. [];
}

shadowed : value regex_ops table 2 ctx 0 ≡ codes "xGET"
unfolding value eval_body render_inner
shadowed = refl

abbrev chosen : Chosen
chosen = record {
  names = table.names;
  chosen = record { name = codes "a"; body = constant (codes "x{b}"); line = 1 } ∷ inner_b ∷ [];
}

layers_chosen : add_layers nothing_chosen layers ≡ ok chosen
unfolding add_layers add_layer choose valid_name get insert find_name known_var eq_text
    contains_text
layers_chosen = refl

add_layers-last_named_example :
    effective chosen (codes "b") ≡ last_named_layers none (codes "b") layers
add_layers-last_named_example = add_layers-last_named layers chosen (codes "b") layers_chosen

-- The variable that refers to the other stands above it.
abbrev rank : ℕ → ℕ
rank zero = 1
rank (suc i) = 0

table_falls : (i d : ℕ) → contains_id (deps_of table i) d ≡ true → (rank d < rank i) × (d < 2)
unfolding deps_of body_deps add_deps add_ids templates refs refs_from add_ref contains_id
table_falls zero zero h = absurd (ground arith)
table_falls zero (suc zero) h = (omega arith, omega arith)
table_falls zero (suc (suc d)) h = absurd (ground arith)
table_falls (suc zero) d h = absurd (ground arith)
table_falls (suc (suc i)) d h = absurd (ground arith)

table-FallsAlong : FallsAlong table rank
table-FallsAlong = record {
  falls = λ i d h. (table_falls i d h).0;
  closed = λ i d h. (table_falls i d h).1;
}

check_cycles-passes_example : (s : Search) × (check_cycles table ≡ ok s)
check_cycles-passes_example = check_cycles-passes table rank table-FallsAlong

-- The same request of another user.
abbrev other : RequestContext
other = record ctx { username = codes "bob" }

abbrev needs : ResolvedNeeds
needs = some no_needs ∷ some no_needs ∷ []

needs_computed : compute_needs table ≡ ok needs
unfolding compute_needs resolve_all resolve_needs merge_deps merge direct_needs take_templates
    take_refs add_headers templates deps_of body_deps add_deps add_ids refs refs_from add_ref
    contains_id
needs_computed = refl

abbrev greeting : List Part
greeting = literal (codes "by ") ∷ custom 0 none ∷ []

-- The needs of the greeting do not name the user.
users_agree : AgreesOn (absorb no_needs greeting (λ i. no_needs)) ctx other
unfolding header_value absorb merge_vars merge take_refs add_headers refs refs_from add_ref
    contains_id
users_agree = record {
  client_ip = refl;
  username = λ h. absurd (ground arith);
  groups = λ h. refl;
  method = refl;
  path = refl;
  query = refl;
  path_and_query = refl;
  host = refl;
  scheme = refl;
  client_cert_subject = refl;
  client_cert_sans = refl;
  country = λ h. refl;
  headers = λ n h. refl;
}

greeting_needs :
    (i : ℕ) → contains_id (refs greeting).vars i ≡ true → get_elem? needs i ≡ some (some no_needs)
unfolding refs refs_from add_ref contains_id
greeting_needs zero h = refl
greeting_needs (suc zero) h = refl
greeting_needs (suc (suc i)) h = absurd (ground arith)

absorb-gates_example :
    render_inner (record ctx { vars = value regex_ops table 2 ctx }) none greeting
    ≡ render_inner (record other { vars = value regex_ops table 2 other }) none greeting
absorb-gates_example =
    absorb-gates regex_ops table needs (λ i. no_needs) no_needs greeting none 2 ctx other
      needs_computed greeting_needs users_agree

compute_needs_total_example :
    (out : ResolvedNeeds) × (compute_needs table ≡ ok out)
    × ((i : ℕ) → i < 2 → (nd : VarNeeds) × (get_elem? out i ≡ some (some nd)))
compute_needs_total_example = compute_needs_total regex_ops header_name layers table table_built

-- Two variables that refer to each other are refused, with the chain.
circle :
    build_layered regex_ops header_name (
      (record { name = codes "a"; body = constant (codes "{b}"); line = 1 }
        ∷ record { name = codes "b"; body = constant (codes "{a}"); line = 2 }
        ∷ [])
      ∷ [])
    ≡ err (bad_references (cycle (codes "a" ∷ codes "b" ∷ codes "a" ∷ [])))
unfolding build_layered add_layers add_layer choose valid_name build_chosen check_table compile_defs
    compile_body compile build build_tokens resolve lex lex_from push_literal make_token known_var
    get insert find_name eq_text split_once strip_prefix contains_text check_cycles cycle_dfs
    visit_all enter leave pop deps_of body_deps add_deps add_ids templates arm_values refs refs_from
    add_ref contains_id position_or_zero position name_of
circle = refl
