-- ===== src/Vars/Layers.antt =====
-- Shadowing in `build_layered` of src/vars.rs: the definition that stands for a name.
use hypershunt.Prelude.{
  ◌≡◌, refl, sym, ap, subst, ◌∙◌, Option, none, some, List, [], ◌∷◌, if◌then◌else◌, arith,
}
use hypershunt.Prelude.Text.{Text, eq_text}
use hypershunt.Prelude.Result.{ok, ◌>>=◌, bind_ok}
use hypershunt.Headers.{get, find_name}
use hypershunt.Vars.Defs.{VariableDef}
use hypershunt.Vars.Build.{Chosen, choose, add_layer, add_layers, nothing_chosen}
use hypershunt.Vars.Choice.{effective, WellNamed, choose-Chose}

-- The last definition of a name in reading order, from the outermost layer to the innermost.
pub last_named : Option VariableDef → Text → List VariableDef → Option VariableDef
last_named found name [] = found
last_named found name (spec ∷ specs) =
    last_named (if eq_text spec.name name then some spec else found) name specs

pub last_named_layers : Option VariableDef → Text → List (List VariableDef) → Option VariableDef
last_named_layers found name [] = found
last_named_layers found name (layer ∷ layers) =
    last_named_layers (last_named found name layer) name layers

-- A whole layer, and all layers, keep the last definition of every name.
pub record Kept (c : Chosen) (last : Option VariableDef → Text → Option VariableDef) (d : Chosen)
    : Type 0 where
  pub well_named : WellNamed d
  pub effect : (name : Text) → effective d name ≡ last (effective c name) name

add_layer-Kept :
    (specs : List VariableDef) (seen : List Text) (c d : Chosen)
    → WellNamed c
    → add_layer seen c specs ≡ ok d
    → Kept c (λ found name. last_named found name specs) d
unfolding add_layer last_named
add_layer-Kept [] seen c d w h =
    let same : c ≡ d = ground arith in
    record {
      well_named = subst WellNamed same w;
      effect = λ name. ap (λ e. effective e name) (sym same);
    }
add_layer-Kept (spec ∷ specs) seen c d w h =
    let last : (choose c spec >>= λ e. add_layer (spec.name ∷ seen) e specs) ≡ ok d =
      ground arith in
    let (e, first, rest) =
      bind_ok (choose c spec) (λ e. add_layer (spec.name ∷ seen) e specs) d last in
    let a = choose-Chose c e spec w first in
    let b = add_layer-Kept specs (spec.name ∷ seen) e d a.well_named rest in
    record {
      well_named = b.well_named;
      effect = λ name. b.effect name ∙ ap (λ f. last_named f name specs) (a.effect name);
    }

pub add_layers-Kept :
    (layers : List (List VariableDef)) (c d : Chosen)
    → WellNamed c
    → add_layers c layers ≡ ok d
    → Kept c (λ found name. last_named_layers found name layers) d
unfolding add_layers last_named_layers
add_layers-Kept [] c d w h =
    let same : c ≡ d = ground arith in
    record {
      well_named = subst WellNamed same w;
      effect = λ name. ap (λ e. effective e name) (sym same);
    }
add_layers-Kept (layer ∷ layers) c d w h =
    let (e, first, rest) = bind_ok (add_layer [] c layer) (λ e. add_layers e layers) d h in
    let a = add_layer-Kept layer [] c e w first in
    let b = add_layers-Kept layers e d a.well_named rest in
    record {
      well_named = b.well_named;
      effect = λ name. b.effect name ∙ ap (λ f. last_named_layers f name layers) (a.effect name);
    }

nothing_effective : (name : Text) → effective nothing_chosen name ≡ none
unfolding effective get find_name
nothing_effective name = refl

pub nothing_chosen-WellNamed : WellNamed nothing_chosen
unfolding get find_name
nothing_chosen-WellNamed = record { size = refl; named = λ n id g. absurd (ground arith) }

-- For every name, the definition that the table is built from is the last one in the layers, from the
-- outermost to the innermost: an inner layer shadows an outer one.
pub add_layers-last_named :
    (layers : List (List VariableDef)) (c : Chosen) (name : Text)
    → add_layers nothing_chosen layers ≡ ok c
    → effective c name ≡ last_named_layers none name layers
add_layers-last_named layers c name h =
    (add_layers-Kept layers nothing_chosen c nothing_chosen-WellNamed h).effect name
    ∙ ap (λ f. last_named_layers f name layers) (nothing_effective name)
