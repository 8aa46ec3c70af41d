-- ===== src/Headers/Lex.antt =====
-- `lex` of src/headers.rs: a template's text into literal runs and `{...}` tokens.
use hypershunt.Prelude.{ℕ, zero, suc, Option, none, some, List, [], ◌∷◌, ◌++◌, length}
use hypershunt.Prelude.Text.{Text, split_once}

pub data RawTok : Type 0 where
  literal : Text → RawTok
  token : Text → Option Text → Text → RawTok

-- A literal run is pushed unless it is empty.
unfoldable pub push_literal : Text → List RawTok → List RawTok
push_literal [] toks = toks
push_literal (b ∷ s) toks = literal (b ∷ s) ∷ toks

-- The name and the fallback are what stands before and after the first '|'.
unfoldable pub make_token : Text → RawTok
make_token tok = elim (split_once b'|' tok) [
  | none ↦ token tok none (b'{' ∷ (tok ++ b'}' ∷ []))
  | some (name, fallback) ↦ token name (some fallback) (b'{' ∷ (tok ++ b'}' ∷ []))
]

-- The `while` loop; a round consumes at least the opening brace, so that the text's length is fuel
-- enough.
unfoldable pub lex_from : ℕ → Text → List RawTok
lex_from zero rest = []
lex_from (suc fuel) rest = elim (split_once b'{' rest) [
  | none ↦ push_literal rest []
  | some (before, after) ↦ push_literal before (elim (split_once b'}' after) [
    | none ↦ literal (b'{' ∷ after) ∷ []
    | some (tok, more) ↦ make_token tok ∷ lex_from fuel more
  ])
]

unfoldable pub lex : Text → List RawTok
unfolding lex_from push_literal make_token
lex s = lex_from (suc (length s)) s
