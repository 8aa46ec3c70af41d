-- ===== src/Headers/Defs.antt =====
-- src/headers.rs: the types of a template, of its context, and the tables that resolve its names
-- (with `VarNames` of src/vars.rs).
use hypershunt.Prelude.{
  ℕ, ◌-◌, Option, none, some, List, [], ◌∷◌, ◌++◌, length, in_range, leb, if◌then◌else◌,
}
use hypershunt.Prelude.Text.{Text, codes, eq_text}

pub data KnownVar : Type 0 where
  client_ip username groups method path query path_and_query host scheme : KnownVar
  client_cert_subject client_cert_sans country : KnownVar

-- `TemplatePart`: the last field of a slot is the fallback text.
pub data Part : Type 0 where
  literal : Text → Part
  var : KnownVar → Option Text → Part
  custom : ℕ → Option Text → Part
  header : Text → Option Text → Part
  capture : ℕ → Option Text → Part
  unknown : Text → Part

-- The field `vars` is what `VarScope::get` answers for a variable's id.
pub record RequestContext : Type 0 where
  pub client_ip : Text
  pub username : Text
  pub groups : Text
  pub method : Text
  pub path : Text
  pub query : Text
  pub path_and_query : Text
  pub host : Text
  pub scheme : Text
  pub client_cert_subject : Text
  pub client_cert_sans : Text
  pub country : Text
  pub headers : List (Text × Text)
  pub vars : ℕ → Text

pub record CaptureScope : Type 0 where
  pub groups : ℕ
  pub names : List (Text × ℕ)

pub record VarNames : Type 0 where
  pub names : List Text
  pub index : List (Text × ℕ)

-- `iter().find(|(n, _)| n == name)`, and `HashMap::get` on an index whose newest entry stands first.
unfoldable pub find_name {ℓ} : {A : Type ℓ} → Text → List (Text × A) → Option A
find_name name [] = none
find_name name ((n, a) ∷ rest) = if eq_text n name then some a else find_name name rest

unfoldable pub get : VarNames → Text → Option ℕ
unfolding find_name
get names name = find_name name names.index

unfoldable pub insert : VarNames → Text → VarNames
insert names name = record {
  names = names.names ++ name ∷ [];
  index = (name, length names.names) ∷ names.index;
}

abbrev pub builtin_vars : List (Text × KnownVar)
builtin_vars =
    (codes "client_ip", client_ip)
    ∷ (codes "username", username)
    ∷ (codes "groups", groups)
    ∷ (codes "method", method)
    ∷ (codes "path", path)
    ∷ (codes "query", query)
    ∷ (codes "path_and_query", path_and_query)
    ∷ (codes "host", host)
    ∷ (codes "scheme", scheme)
    ∷ (codes "client_cert_subject", client_cert_subject)
    ∷ (codes "client_cert_sans", client_cert_sans)
    ∷ (codes "country", country)
    ∷ []

unfoldable pub known_var : Text → Option KnownVar
unfolding find_name
known_var name = find_name name builtin_vars

-- `{1}` to `{9}`.
unfoldable pub digit_group : Text → Option ℕ
digit_group (b ∷ []) = if in_range b'1' b'9' b then some (b - b'0') else none
digit_group _ = none

unfoldable pub lookup : CaptureScope → Text → Option ℕ
unfolding find_name digit_group
lookup caps token = elim (find_name token caps.names) [
  | some i ↦ some i
  | none ↦ elim (digit_group token) [
    | some i ↦ if leb i caps.groups then some i else none
    | none ↦ none
  ]
]

unfoldable pub header_value : RequestContext → Text → Text
unfolding find_name
header_value ctx name = elim (find_name name ctx.headers) [ some v ↦ v | none ↦ [] ]
