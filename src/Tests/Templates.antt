-- ===== src/Tests/Templates.antt =====
-- src/headers.rs on short templates.
use hypershunt.Prelude.{◌≡◌, refl, false, Option, none, some, List, [], ◌∷◌, arith}
use hypershunt.Prelude.Text.{Text, codes, split_once, strip_prefix, eq_text}
use hypershunt.Prelude.Result.{ok}
use hypershunt.Headers.{
  RequestContext, VarNames, Part, literal, var, method, known_var, get, header_value,
}
use hypershunt.Headers.Lex.{lex, lex_from, push_literal, make_token}
use hypershunt.Headers.Build.{build, header_ref}
use hypershunt.Headers.Render.{render, render_inner}
use hypershunt.Headers.Lossless.{raw_text, raw_text-lex}
use hypershunt.Headers.Verbatim.{AreUnresolved, render-build_verbatim}
use hypershunt.Headers.Ops.{
  HeaderOp, set_header, remove_header, new_rules, op_needs_principal, apply, other_user,
  apply-needs_principal,
}
use hypershunt.Tests.Fixtures.{header_maps}
use hypershunt.Headers.Refs.{refs, references_principal, Agrees, render-refs}

abbrev header_name : Text → Option Text
header_name name = some name

abbrev ctx : RequestContext
ctx = record {
  client_ip = codes "10.0.0.1";
  username = codes "ada";
  groups = [];
  method = codes "GET";
  path = codes "/";
  query = [];
  path_and_query = codes "/";
  host = codes "h";
  scheme = codes "https";
  client_cert_subject = [];
  client_cert_sans = [];
  country = codes "NZ";
  headers = [];
  vars = λ i. [];
}

-- The same request of another user.
abbrev other : RequestContext
other = record ctx { username = codes "bob" }

raw_text-lex_example : raw_text (lex (codes "a{method}b{")) ≡ codes "a{method}b{"
raw_text-lex_example = raw_text-lex (codes "a{method}b{")

abbrev parts : List Part
parts = literal (codes "by ") ∷ var method none ∷ []

parts_agree : Agrees (refs parts) ctx other
unfolding refs header_value
parts_agree = record {
  client_ip = refl;
  method = refl;
  path = refl;
  query = refl;
  path_and_query = refl;
  host = refl;
  scheme = refl;
  client_cert_subject = refl;
  client_cert_sans = refl;
  username = λ h. absurd (ground arith);
  groups = λ h. refl;
  country = λ h. refl;
  headers = λ n h. refl;
  vars = λ i h. refl;
}

render-refs_example : render_inner ctx none parts ≡ render_inner other none parts
render-refs_example = render-refs none ctx other parts parts_agree

abbrev names : VarNames
names = record { names = codes "x" ∷ []; index = (codes "x", 0) ∷ [] }

plain_AreUnresolved :
    AreUnresolved header_name (some names) (lex (codes "{y}!"))
    × AreUnresolved header_name none (lex (codes "{x}"))
unfolding lex lex_from push_literal make_token known_var split_once eq_text header_ref strip_prefix
    get
plain_AreUnresolved = (((refl, refl, refl), tt), (refl, tt))

render-build_verbatim_example :
    (parts : List Part) × (build header_name (codes "{y}!") (some names) none ≡ ok parts)
    × (render ctx parts ≡ codes "{y}!")
render-build_verbatim_example =
    render-build_verbatim header_name ctx (some names) (codes "{y}!") plain_AreUnresolved.0

abbrev request_ops : List HeaderOp
request_ops = set_header (codes "x-by") parts ∷ []

abbrev response_ops : List HeaderOp
response_ops = remove_header (codes "server") ∷ []

ops_need_nobody : (new_rules request_ops response_ops).needs_principal ≡ false
unfolding new_rules op_needs_principal references_principal
ops_need_nobody = refl

apply-needs_principal_example :
    (apply header_maps [] request_ops ctx
      ≡ apply header_maps [] request_ops (other_user ctx (codes "bob") (codes "ops")))
    × (apply header_maps [] response_ops ctx
        ≡ apply header_maps [] response_ops (other_user ctx (codes "bob") (codes "ops")))
apply-needs_principal_example =
    apply-needs_principal ctx (codes "bob") (codes "ops") header_maps [] request_ops response_ops
      ops_need_nobody
