-- ===== src/Headers/Build.antt =====
-- `Template::build` of src/headers.rs and its three callers.
use hypershunt.Prelude.{ℕ, Option, none, some, List, [], ◌∷◌}
use hypershunt.Prelude.Text.{Text, codes, strip_prefix}
use hypershunt.Prelude.Result.{Result, ok, err, ◌>>=◌}
use hypershunt.Headers.Defs.{
  Part, literal, var, custom, header, capture, unknown, CaptureScope, VarNames, get, known_var,
  digit_group, lookup,
}
use hypershunt.Headers.Lex.{RawTok, token, lex}

-- "value references capture {n} but the pattern has only k capture group(s)".
pub data BuildError : Type 0 where
  no_such_capture : ℕ → ℕ → BuildError

module _ (header_name : Text → Option Text) where
  -- What follows the `header:` test: `get` of the variable table, or the token kept verbatim.
  unfoldable pub resolve_custom : VarNames → Text → Option Text → Text → Part
  resolve_custom vars name fb raw = elim (get vars name) [
    | some id ↦ custom id fb
    | none ↦ unknown raw
  ]

  unfoldable pub resolve_capture :
      VarNames → Option CaptureScope → Text → Option Text → Text → Result BuildError Part
  resolve_capture vars none name fb raw = ok (resolve_custom vars name fb raw)
  resolve_capture vars (some caps) name fb raw = elim (lookup caps name) [
    | some i ↦ ok (capture i fb)
    | none ↦ elim (digit_group name) [
      | some n ↦ err (no_such_capture n caps.groups)
      | none ↦ ok (resolve_custom vars name fb raw)
    ]
  ]

  -- `strip_prefix("header:")` and a valid header name.
  unfoldable pub header_ref : Text → Option Text
  header_ref name = elim (strip_prefix (codes "header:") name) [
    | some h ↦ header_name h
    | none ↦ none
  ]

  unfoldable pub resolve :
      Option VarNames → Option CaptureScope → Text → Option Text → Text → Result BuildError Part
  resolve vars caps name fb raw = elim (known_var name) [
    | some v ↦ ok (var v fb)
    | none ↦ elim vars [
      | none ↦ ok (unknown raw)
      | some table ↦ elim (header_ref name) [
        | some h ↦ ok (header h fb)
        | none ↦ resolve_capture table caps name fb raw
      ]
    ]
  ]

  -- The loop over the tokens, which stops at the first error.
  unfoldable pub build_tokens :
      Option VarNames → Option CaptureScope → List RawTok → Result BuildError (List Part)
  build_tokens vars caps [] = ok []
  build_tokens vars caps (RawTok.literal l ∷ toks) = do
    rest ← build_tokens vars caps toks
    ok (literal l ∷ rest)
  build_tokens vars caps (token name fb raw ∷ toks) = do
    part ← resolve vars caps name fb raw
    rest ← build_tokens vars caps toks
    ok (part ∷ rest)

  unfoldable pub build :
      Text → Option VarNames → Option CaptureScope → Result BuildError (List Part)
  unfolding build_tokens resolve header_ref resolve_capture resolve_custom
  build s vars caps = build_tokens vars caps (lex s)

  -- The lenient mode keeps the raw text if `build` fails.
  unfoldable pub parse : Text → List Part
  unfolding build
  parse s = elim (build s none none) [ ok parts ↦ parts | err _ ↦ literal s ∷ [] ]

  unfoldable pub compile : Text → VarNames → Result BuildError (List Part)
  unfolding build
  compile s vars = build s (some vars) none

  unfoldable pub compile_with_captures :
      Text → VarNames → CaptureScope → Result BuildError (List Part)
  unfolding build
  compile_with_captures s vars caps = build s (some vars) (some caps)
