-- ===== src/Vars/Scoped.antt =====
-- The templates that src/vars.rs compiles refer to variables that have names only.
use hypershunt.Prelude.{
  ℕ, ◌≡◌, ◌⊎◌, ap, subst, ◌∙◌, true, false, Option, none, some, List, [], ◌∷◌, ◌++◌, All, ◌==◌,
  arith, Bool-cases, Option-cases, inl, inr,
}
use hypershunt.Prelude.Text.{Text}
use hypershunt.Prelude.Result.{ok, ◌>>=◌, bind_ok}
use hypershunt.Headers.{
  username, groups, country, Part, literal, var, custom, header, CaptureScope, VarNames, get,
  known_var, lookup, digit_group,
}
use hypershunt.Headers.Refs.{TemplateRefs, contains_id, no_refs, add_ref, refs_from, refs}
use hypershunt.Headers.Build.{
  resolve, build_tokens, header_ref, resolve_capture, resolve_custom, build, compile,
  compile_with_captures,
}
use hypershunt.Headers.Lex.{RawTok, token, lex}

-- An id that some name has.
abbrev pub IsNamed : VarNames → ℕ → Type 0
IsNamed names id = (name : Text) × (get names name ≡ some id)

abbrev pub Named : VarNames → Part → Type 0
Named names p = (id : ℕ) (fb : Option Text) → p ≡ custom id fb → IsNamed names id

pub contains_id-snoc_other :
    (xs : List ℕ) (j id : ℕ)
    → (j == id) ≡ false
    → contains_id (xs ++ j ∷ []) id ≡ true
    → contains_id xs id ≡ true
unfolding contains_id
contains_id-snoc_other [] j id b h = absurd (ground arith)
contains_id-snoc_other (x ∷ xs) j id b h = elim (Bool-cases (x == id)) [
  | inl e ↦ ground arith
  | inr e ↦ ground (arith, contains_id-snoc_other xs j id b (ground arith))
]

add_ref-vars :
    (r : TemplateRefs) (p : Part) (id : ℕ)
    → contains_id (add_ref r p).vars id ≡ true
    → (contains_id r.vars id ≡ true) ⊎ ((fb : Option Text) × (p ≡ custom id fb))
unfolding add_ref contains_id
add_ref-vars r (custom j fb) id h = elim (Bool-cases (contains_id r.vars j)) [
  | inl e ↦ inl (ground arith)
  | inr e ↦ elim (Bool-cases (j == id)) [
    | inl b ↦ let same : j ≡ id = ground arith in inr (fb, ap (λ k. custom k fb) same)
    | inr b ↦ inl (contains_id-snoc_other r.vars j id b (ground arith))
  ]
]
add_ref-vars r (header n fb) id h = inl (ground arith)
add_ref-vars r (var username fb) id h = inl h
add_ref-vars r (var groups fb) id h = inl h
add_ref-vars r (var country fb) id h = inl h
add_ref-vars r _ id h = inl h

refs_from-Named :
    (names : VarNames) (r : TemplateRefs) (parts : List Part) (id : ℕ)
    → All (Named names) parts
    → contains_id (refs_from r parts).vars id ≡ true
    → (contains_id r.vars id ≡ true) ⊎ IsNamed names id
unfolding refs_from
refs_from-Named names r [] id a h = inl h
refs_from-Named names r (p ∷ parts) id (a, as_) h =
    elim (refs_from-Named names (add_ref r p) parts id as_ h) [
      | inr k ↦ inr k
      | inl k ↦ elim (add_ref-vars r p id k) [ inl j ↦ inl j | inr (fb, e) ↦ inr (a id fb e) ]
    ]

module _ (header_name : Text → Option Text) where
  resolve_custom-Named :
      (names : VarNames) (name raw : Text) (fb : Option Text) (p : Part)
      → resolve_custom header_name names name fb raw ≡ p
      → Named names p
  unfolding resolve_custom
  resolve_custom-Named names name raw fb p h id fb2 e = elim (Option-cases (get names name)) [
    | inr (j, g) ↦ let same : j ≡ id = ground arith in (name, g ∙ ap some same)
    | inl g ↦ absurd (ground arith)
  ]

  resolve_capture-Named :
      (names : VarNames) (caps : Option CaptureScope) (name raw : Text) (fb : Option Text)
      (p : Part)
      → resolve_capture header_name names caps name fb raw ≡ ok p
      → Named names p
  unfolding resolve_capture
  resolve_capture-Named names none name raw fb p h =
      resolve_custom-Named names name raw fb p (ground arith)
  resolve_capture-Named names (some caps) name raw fb p h = elim (Option-cases (lookup caps name)) [
    | inr (i, e) ↦ λ id fb2 g. absurd (ground arith)
    | inl e ↦ elim (Option-cases (digit_group name)) [
      | inr (n, k) ↦ λ id fb2 g. absurd (ground arith)
      | inl k ↦ resolve_custom-Named names name raw fb p (ground arith)
    ]
  ]

  resolve-Named :
      (names : VarNames) (caps : Option CaptureScope) (name raw : Text) (fb : Option Text)
      (p : Part)
      → resolve header_name (some names) caps name fb raw ≡ ok p
      → Named names p
  unfolding resolve
  resolve-Named names caps name raw fb p h = elim (Option-cases (known_var name)) [
    | inr (v, e) ↦ λ id fb2 g. absurd (ground arith)
    | inl e ↦ elim (Option-cases (header_ref header_name name)) [
      | inr (n, k) ↦ λ id fb2 g. absurd (ground arith)
      | inl k ↦ resolve_capture-Named names caps name raw fb p (ground arith)
    ]
  ]

  build_tokens-Named :
      (names : VarNames) (caps : Option CaptureScope) (toks : List RawTok) (parts : List Part)
      → build_tokens header_name (some names) caps toks ≡ ok parts
      → All (Named names) parts
  unfolding build_tokens
  build_tokens-Named names caps [] parts h =
      let same : [] ≡ parts = ground arith in subst (All (Named names)) same tt
  build_tokens-Named names caps (RawTok.literal l ∷ toks) parts h =
      let (rest, inside, last) =
        bind_ok (build_tokens header_name (some names) caps toks) (λ rest. ok (literal l ∷ rest))
          parts h in
      let same : literal l ∷ rest ≡ parts = ground arith in
      subst (All (Named names)) same
        (λ id fb e. absurd (ground arith), build_tokens-Named names caps toks rest inside)
  build_tokens-Named names caps (token name fb raw ∷ toks) parts h =
      let (p, first, h2) =
        bind_ok (resolve header_name (some names) caps name fb raw)
          (λ p. build_tokens header_name (some names) caps toks >>= λ rest. ok (p ∷ rest)) parts
          h in
      let (rest, inside, last) =
        bind_ok (build_tokens header_name (some names) caps toks) (λ rest. ok (p ∷ rest)) parts
          h2 in
      let same : p ∷ rest ≡ parts = ground arith in
      subst (All (Named names)) same (
        resolve-Named names caps name raw fb p first,
        build_tokens-Named names caps toks rest inside,
      )

  -- The variables that a compiled template refers to have names in its scope.
  abbrev pub Scoped : VarNames → List Part → Type 0
  Scoped names t = (id : ℕ) → contains_id (refs t).vars id ≡ true → IsNamed names id

  build_tokens-Scoped :
      (names : VarNames) (caps : Option CaptureScope) (toks : List RawTok) (parts : List Part)
      → build_tokens header_name (some names) caps toks ≡ ok parts
      → Scoped names parts
  unfolding refs contains_id
  build_tokens-Scoped names caps toks parts h id e =
      elim (refs_from-Named names no_refs parts id (build_tokens-Named names caps toks parts h) e) [
        | inl k ↦ absurd (ground arith)
        | inr k ↦ k
      ]

  pub compile-Scoped :
      (s : Text) (names : VarNames) (parts : List Part)
      → compile header_name s names ≡ ok parts
      → Scoped names parts
  unfolding compile build
  compile-Scoped s names parts h = build_tokens-Scoped names none (lex s) parts h

  pub compile_with_captures-Scoped :
      (s : Text) (names : VarNames) (caps : CaptureScope) (parts : List Part)
      → compile_with_captures header_name s names caps ≡ ok parts
      → Scoped names parts
  unfolding compile_with_captures build
  compile_with_captures-Scoped s names caps parts h =
      build_tokens-Scoped names (some caps) (lex s) parts h
