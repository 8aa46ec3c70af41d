-- ===== src/Headers/Verbatim.antt =====
-- What `Template::build` of src/headers.rs does not resolve, rendering leaves as it stands.
use hypershunt.Prelude.{◌≡◌, refl, ◌∙◌, Option, none, some, List, [], ◌∷◌, arith}
use hypershunt.Prelude.Text.{Text}
use hypershunt.Prelude.Result.{ok}
use hypershunt.Headers.Defs.{Part, literal, unknown, RequestContext, VarNames, get, known_var}
use hypershunt.Headers.Lex.{RawTok, token, lex}
use hypershunt.Headers.Build.{
  build_tokens, build, resolve, resolve_capture, resolve_custom, header_ref,
}
use hypershunt.Headers.Render.{render_inner, render}
use hypershunt.Headers.Lossless.{raw_text, raw_text-lex}

module _ (header_name : Text → Option Text) where
  -- A name means nothing: it is no built-in variable and, where there is a variable table, neither
  -- a header reference nor a variable of the table.
  abbrev pub IsUnresolved : Option VarNames → Text → Type 0
  IsUnresolved none name = known_var name ≡ none
  IsUnresolved (some table) name =
      (known_var name ≡ none) × (header_ref header_name name ≡ none) × (get table name ≡ none)

  abbrev pub AreUnresolved : Option VarNames → List RawTok → Type 0
  AreUnresolved vars [] = Unit
  AreUnresolved vars (RawTok.literal s ∷ toks) = AreUnresolved vars toks
  AreUnresolved vars (token name fb raw ∷ toks) = IsUnresolved vars name × AreUnresolved vars toks

  resolve_unresolved :
      (vars : Option VarNames) (name : Text) (fb : Option Text) (raw : Text)
      → IsUnresolved vars name
      → resolve header_name vars none name fb raw ≡ ok (unknown raw)
  unfolding resolve resolve_capture resolve_custom
  resolve_unresolved none name fb raw h = ground arith
  resolve_unresolved (some table) name fb raw (k, r, g) = ground arith

  render-build_tokens :
      (ctx : RequestContext) (vars : Option VarNames) (toks : List RawTok)
      → AreUnresolved vars toks
      → (parts : List Part) × (build_tokens header_name vars none toks ≡ ok parts)
        × (render_inner ctx none parts ≡ raw_text toks)
  unfolding build_tokens render_inner
  render-build_tokens ctx vars [] h = ([], refl, refl)
  render-build_tokens ctx vars (RawTok.literal s ∷ toks) h =
      let (parts, e, same) = render-build_tokens ctx vars toks h in
      (literal s ∷ parts, rw e refl, ground (arith, same))
  render-build_tokens ctx vars (token name fb raw ∷ toks) (here, h) =
      let (parts, e, same) = render-build_tokens ctx vars toks h in
      (
        unknown raw ∷ parts,
        rw (resolve_unresolved vars name fb raw here, e) refl,
        ground (arith, same),
      )

  -- A template built without captures, in lenient mode or against a variable table, in which no
  -- token names a built-in variable nor, with the table, refers to a request header or names a
  -- variable of the table: it builds, and renders as its own text in every context.
  pub render-build_verbatim :
      (ctx : RequestContext) (vars : Option VarNames) (s : Text)
      → AreUnresolved vars (lex s)
      → (parts : List Part) × (build header_name s vars none ≡ ok parts) × (render ctx parts ≡ s)
  unfolding render build
  render-build_verbatim ctx vars s h =
      let (parts, e, same) = render-build_tokens ctx vars (lex s) h in
      (parts, e, same ∙ raw_text-lex s)
