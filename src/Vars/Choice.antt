-- ===== src/Vars/Choice.antt =====
-- One definition is chosen in `build_layered` of src/vars.rs: it stands for its name.
use hypershunt.Prelude.{
  ℕ, suc, ◌≡◌, refl, sym, subst, ◌∙◌, false, Option, none, some, [], ◌∷◌, ◌++◌, length, get_elem?,
  set, ◌==◌, if◌then◌else◌, arith, Bool-cases, Option-cases, inl, inr, length-append, length-set,
  get_elem?-set_same, get_elem?-set_other, get_elem?-append_left, get_elem?-append_length,
}
use hypershunt.Prelude.Text.{Text, eq_text, eq_text_iff}
use hypershunt.Prelude.Result.{ok}
use hypershunt.Headers.{get, insert, find_name}
use hypershunt.Vars.Defs.{VariableDef}
use hypershunt.Vars.Build.{Chosen, choose}

-- The definition that the table keeps for a name.
unfoldable pub effective : Chosen → Text → Option VariableDef
effective c name = elim (get c.names name) [ some id ↦ get_elem? c.chosen id | none ↦ none ]

effective-at :
    (c : Chosen) (name : Text) (id : ℕ)
    → get c.names name ≡ some id
    → effective c name ≡ get_elem? c.chosen id
unfolding effective
effective-at c name id h = rw (h, effective) refl

effective-none : (c : Chosen) (name : Text) → get c.names name ≡ none → effective c name ≡ none
unfolding effective
effective-none c name h = rw (h, effective) refl

-- Every name has a slot, and the slot holds a definition of that name.
pub record WellNamed (c : Chosen) : Type 0 where
  pub size : length c.names.names ≡ length c.chosen
  pub named :
      (name : Text) (id : ℕ)
      → get c.names name ≡ some id
      → (spec : VariableDef) × (get_elem? c.chosen id ≡ some spec) × (spec.name ≡ name)

-- A definition is chosen: it stands for its name, and no other name is changed.
pub record Chose (c : Chosen) (spec : VariableDef) (d : Chosen) : Type 0 where
  pub well_named : WellNamed d
  pub effect :
      (name : Text)
      → effective d name ≡ (if eq_text spec.name name then some spec else effective c name)

module _ (c : Chosen) (spec : VariableDef) (w : WellNamed c) where
  -- The name has a slot, and its definition is replaced.
  module _ (id : ℕ) (g : get c.names spec.name ≡ some id) where
    replaced : Chosen
    replaced = record c { chosen = set c.chosen id spec }

    other_slot :
        (name : Text) (k : ℕ)
        → get c.names name ≡ some k
        → eq_text spec.name name ≡ false
        → (id == k) ≡ false
    other_slot name k h e = elim (Bool-cases (id == k)) [
      | inr d ↦ d
      | inl d ↦
          let same : id ≡ k = ground arith in
          let (s1, a1, n1) = w.named spec.name id g in
          let (s2, a2, n2) = w.named name k h in
          let b1 : get_elem? c.chosen k ≡ some s1 =
            subst (λ j. get_elem? c.chosen j ≡ some s1) same a1 in
          let eq : spec.name ≡ name = cc (b1, a2, n1, n2) in
          absurd (ground (arith, eq_text_iff spec.name name))
    ]

    effective-replaced :
        (name : Text)
        → effective replaced name ≡ (if eq_text spec.name name then some spec else effective c name)
    effective-replaced name = elim (Bool-cases (eq_text spec.name name)) [
      | inl e ↦
          let same = (eq_text_iff spec.name name).0 e in
          let (s1, a1, n1) = w.named spec.name id g in
          let here : get c.names name ≡ some id = cc (g, same) in
          rw e (
            effective-at replaced name id (unfold replaced in here)
            ∙ unfold replaced in get_elem?-set_same c.chosen id s1 spec a1)
      | inr e ↦ elim (Option-cases (get c.names name)) [
        | inl h ↦
            rw (e, effective-none c name h) (effective-none replaced name (unfold replaced in h))
        | inr (k, h) ↦
            rw (e, effective-at c name k h)
              (effective-at replaced name k (unfold replaced in h)
                ∙ unfold replaced in get_elem?-set_other c.chosen id k spec (other_slot name k h e))
      ]
    ]

    replaced-Chose : Chose c spec replaced
    unfolding replaced
    replaced-Chose = record {
      well_named = record {
        size = w.size ∙ sym (length-set c.chosen id spec);
        named = λ name k h. elim (Bool-cases (eq_text spec.name name)) [
          | inl e ↦
              let same = (eq_text_iff spec.name name).0 e in
              let (s1, a1, n1) = w.named spec.name id g in
              let there : get c.names spec.name ≡ some k = cc (same, h) in
              let slot : id ≡ k = ground (arith, g, there) in
              (
                spec,
                subst (λ j. get_elem? (set c.chosen id spec) j ≡ some spec) slot
                    (get_elem?-set_same c.chosen id s1 spec a1),
                same,
              )
          | inr e ↦
              let (s, a, n) = w.named name k h in
              (s, get_elem?-set_other c.chosen id k spec (other_slot name k h e) ∙ a, n)
        ];
      };
      effect = effective-replaced;
    }

  -- The name is new, and takes the next slot.
  module _ (g : get c.names spec.name ≡ none) where
    extended : Chosen
    extended = record { names = insert c.names spec.name; chosen = c.chosen ++ spec ∷ [] }

    get-insert :
        (name : Text)
        → get (insert c.names spec.name) name
          ≡ (if eq_text spec.name name then some (length c.names.names) else get c.names name)
    unfolding get insert find_name
    get-insert name = refl

    insert_size : length (insert c.names spec.name).names ≡ suc (length c.names.names)
    unfolding insert
    insert_size = omega (arith, length-append c.names.names (spec.name ∷ []))

    effective-extended :
        (name : Text)
        → effective extended name ≡ (if eq_text spec.name name then some spec else effective c name)
    effective-extended name = elim (Bool-cases (eq_text spec.name name)) [
      | inl e ↦ rw e (
          effective-at extended name (length c.names.names)
            (unfold extended in rw (get-insert name, e) refl)
          ∙ unfold extended in
            get_elem?-append_length c.chosen spec [] (length c.names.names) (sym w.size))
      | inr e ↦ elim (Option-cases (get c.names name)) [
        | inl h ↦
            rw (e, effective-none c name h)
              (effective-none extended name (unfold extended in rw (get-insert name, e) h))
        | inr (k, h) ↦
            let (s, a, n) = w.named name k h in
            rw (e, effective-at c name k h)
              (effective-at extended name k (unfold extended in rw (get-insert name, e) h)
                ∙ unfold extended in get_elem?-append_left c.chosen (spec ∷ []) k s a ∙ sym a)
      ]
    ]

    extended-Chose : Chose c spec extended
    unfolding extended
    extended-Chose = record {
      well_named = record {
        size = omega (arith, insert_size, w.size, length-append c.chosen (spec ∷ []));
        named = λ name k h. elim (Bool-cases (eq_text spec.name name)) [
          | inl e ↦
              let fresh : get extended.names name ≡ some (length c.names.names) =
                unfold extended in rw (get-insert name, e) refl in
              let slot : length c.names.names ≡ k = ground (arith, fresh, h) in
              (
                spec,
                get_elem?-append_length c.chosen spec [] k (omega (arith, w.size)),
                (eq_text_iff spec.name name).0 e,
              )
          | inr e ↦
              let (s, a, n) = w.named name k (sym (rw (get-insert name, e) refl) ∙ h) in
              (s, get_elem?-append_left c.chosen (spec ∷ []) k s a, n)
        ];
      };
      effect = effective-extended;
    }

pub choose-Chose :
    (c d : Chosen) (spec : VariableDef) → WellNamed c → choose c spec ≡ ok d → Chose c spec d
unfolding choose replaced extended
choose-Chose c d spec w h = elim (Option-cases (get c.names spec.name)) [
  | inl g ↦
      let same : extended c spec w g ≡ d = ground arith in
      subst (Chose c spec) same (extended-Chose c spec w g)
  | inr (id, g) ↦
      let same : replaced c spec w id g ≡ d = ground arith in
      subst (Chose c spec) same (replaced-Chose c spec w id g)
]
