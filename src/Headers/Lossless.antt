-- ===== src/Headers/Lossless.antt =====
-- The lexer loses nothing, and building without captures never fails.
use hypershunt.Prelude.{
  ℕ, zero, suc, ◌<◌, ◌≡◌, refl, sym, ap, ◌∙◌, inl, inr, Option, none, some, List, [], ◌∷◌, ◌++◌,
  length, length-append, arith, Option-cases,
}
use mathlib.Core.List.{append_assoc, append-nil}
use hypershunt.Prelude.Text.{Text, split_once, split_once-some}
use hypershunt.Prelude.Result.{ok}
use hypershunt.Headers.Defs.{Part, literal, var, header, unknown, VarNames, known_var}
use hypershunt.Headers.Lex.{RawTok, token, lex, lex_from, push_literal, make_token}
use hypershunt.Headers.Build.{
  build_tokens, build, parse, compile, resolve, resolve_capture, resolve_custom, header_ref,
}

-- The text that a raw token stands for, and that of a list of them.
abbrev pub raw_of : RawTok → Text
raw_of (RawTok.literal s) = s
raw_of (token name fb raw) = raw

abbrev pub raw_text : List RawTok → Text
raw_text [] = []
raw_text (t ∷ ts) = raw_of t ++ raw_text ts

raw_text-push_literal :
    (s : Text) (toks : List RawTok) → raw_text (push_literal s toks) ≡ s ++ raw_text toks
unfolding push_literal
raw_text-push_literal [] toks = refl
raw_text-push_literal (b ∷ s) toks = refl

raw_of-make_token : (tok : Text) → raw_of (make_token tok) ≡ b'{' ∷ (tok ++ b'}' ∷ [])
unfolding make_token
raw_of-make_token tok = ground arith

length-of-split : (c : ℕ) (s l r : Text) → split_once c s ≡ some (l, r) → length r < length s
length-of-split c s l r h =
    let e : s ≡ l ++ c ∷ r = (split_once-some c s l r h).0 in
    omega (arith, ap length e, length-append {0} l (c ∷ r))

raw_text-lex_from :
    (fuel : ℕ) (rest : Text) → length rest < fuel → raw_text (lex_from fuel rest) ≡ rest
unfolding lex_from
raw_text-lex_from zero rest h = absurd (omega arith)
raw_text-lex_from (suc fuel) rest h = elim (Option-cases (split_once b'{' rest)) [
  | inl e ↦ rw (e, lex_from) (raw_text-push_literal rest [] ∙ append-nil rest)
  | inr ((before, after), e) ↦
      let here = (split_once-some b'{' rest before after e).0 in
      elim (Option-cases (split_once b'}' after)) [
        | inl e' ↦
            rw (e, lex_from, e') (raw_text-push_literal before _ ∙ simp append-nil (sym here))
        | inr ((tok, more), e') ↦
            let there = (split_once-some b'}' after tok more e').0 in
            let small = length-of-split b'{' rest before after e in
            let small' = length-of-split b'}' after tok more e' in
            let ih = raw_text-lex_from fuel more (omega arith) in
            rw (e, lex_from, e')
              (raw_text-push_literal before _
                ∙ rw (raw_of-make_token, ih) (simp append_assoc (rw (← there) (sym here))))
      ]
]

-- The pieces that the lexer cuts a template into spell the template's text.
pub raw_text-lex : (s : Text) → raw_text (lex s) ≡ s
unfolding lex
raw_text-lex s = raw_text-lex_from (suc (length s)) s (omega arith)

module _ (header_name : Text → Option Text) where
  -- The lenient mode has no error to report.
  pub build_tokens_lenient :
      (toks : List RawTok)
      → (parts : List Part) × (build_tokens header_name none none toks ≡ ok parts)
  unfolding build_tokens resolve
  build_tokens_lenient [] = ([], refl)
  build_tokens_lenient (RawTok.literal s ∷ toks) =
      let (parts, e) = build_tokens_lenient toks in (literal s ∷ parts, rw e)
  build_tokens_lenient (token name fb raw ∷ toks) =
      let (parts, e) = build_tokens_lenient toks in
      elim (Option-cases (known_var name)) [
        | inl k ↦ (unknown raw ∷ parts, ground arith)
        | inr (v, k) ↦ (var v fb ∷ parts, ground arith)
      ]

  -- `parse` is `build` in lenient mode, whose result it never has to replace.
  pub build-parse : (s : Text) → build header_name s none none ≡ ok (parse header_name s)
  unfolding build parse
  build-parse s = let (parts, e) = build_tokens_lenient (lex s) in ground arith

  resolve_compiles :
      (vars : VarNames) (name : Text) (fb : Option Text) (raw : Text)
      → (p : Part) × (resolve header_name (some vars) none name fb raw ≡ ok p)
  unfolding resolve resolve_capture
  resolve_compiles vars name fb raw = elim (Option-cases (known_var name)) [
    | inr (v, k) ↦ (var v fb, ground arith)
    | inl k ↦ elim (Option-cases (header_ref header_name name)) [
      | inr (h, e) ↦ (header h fb, ground arith)
      | inl e ↦ (resolve_custom header_name vars name fb raw, ground arith)
    ]
  ]

  pub build_tokens_compiles :
      (vars : VarNames) (toks : List RawTok)
      → (parts : List Part) × (build_tokens header_name (some vars) none toks ≡ ok parts)
  unfolding build_tokens
  build_tokens_compiles vars [] = ([], refl)
  build_tokens_compiles vars (RawTok.literal s ∷ toks) =
      let (parts, e) = build_tokens_compiles vars toks in (literal s ∷ parts, rw e)
  build_tokens_compiles vars (token name fb raw ∷ toks) =
      let (part, k) = resolve_compiles vars name fb raw in
      let (parts, e) = build_tokens_compiles vars toks in (part ∷ parts, ground arith)

  -- Token contents never fail the compilation of a template outside a match arm.
  pub compile_total :
      (s : Text) (vars : VarNames) → (parts : List Part) × (compile header_name s vars ≡ ok parts)
  unfolding compile
  compile_total s vars = build_tokens_compiles vars (lex s)
