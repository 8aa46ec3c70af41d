-- ===== src/Cache/Key.antt =====
-- src/cache/key.rs: the primary cache key of a request.
use hypershunt.Prelude.{◌≡◌, sym, ap, ◌∙◌, false, Option, none, some, List, ◌∷◌, ◌++◌, arith}
use hypershunt.Prelude.Text.{Text, codes, contains_byte, split_once, split_once-append}
use hypershunt.Headers.{Part, VarNames, RequestContext}
use hypershunt.Headers.Build.{BuildError, compile}
use hypershunt.Headers.Render.{render}
use hypershunt.Prelude.Result.{Result, ok, err}

-- A compiled key: the operator's template, or the default form.
pub record CacheKey : Type 0 where
  pub template : Option (List Part)

module _ (header_name : Text → Option Text) where
  unfoldable pub compile_key : Option Text → VarNames → Result BuildError CacheKey
  compile_key none names = ok (record { template = none })
  compile_key (some k) names = elim (compile header_name k names) [
    | ok parts ↦ ok (record { template = some parts })
    | err e ↦ err e
  ]

-- The key without the method and the blank that begin it.
unfoldable pub key_rest : CacheKey → RequestContext → Text
key_rest key ctx = elim key.template [
  | some t ↦ render ctx t
  | none ↦ ctx.scheme ++ codes "://" ++ ctx.host ++ ctx.path_and_query
]

unfoldable pub build_key : CacheKey → RequestContext → Text
unfolding key_rest
build_key key ctx = ctx.method ++ b' ' ∷ key_rest key ctx

-- Two requests with the same key have the same method and agree on the rest of the key, whichever
-- the recipe, where a method has no blank: GET and HEAD never share an entry.
pub build_key-method :
    (key other : CacheKey) (ctx ctx' : RequestContext)
    → contains_byte b' ' ctx.method ≡ false
    → contains_byte b' ' ctx'.method ≡ false
    → build_key key ctx ≡ build_key other ctx'
    → (ctx.method ≡ ctx'.method) × (key_rest key ctx ≡ key_rest other ctx')
unfolding build_key
build_key-method key other ctx ctx' m m' same =
    let pair =
      sym (split_once-append b' ' ctx.method (key_rest key ctx) m)
      ∙ ap (split_once b' ') same
      ∙ split_once-append b' ' ctx'.method (key_rest other ctx') m' in
    (ground arith, ground arith)
