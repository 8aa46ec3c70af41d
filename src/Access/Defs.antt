-- ===== src/Access/Defs.antt =====
-- src/access.rs: predicates, rules, blocks and the evaluation context.
use hypershunt.Prelude.{ℕ, ◌+◌, Bool, true, false, ◌||◌, Option, none, some, List}
use hypershunt.Prelude.Text.{Text}
use hypershunt.Net.{IpAddr, v4, v6, to_ipv4_mapped}
use hypershunt.Headers.{Part}

pub record Identity : Type 0 where
  pub username : Text
  pub groups : List Text

pub data Principal : Type 0 where
  anonymous : Principal
  authenticated : Identity → Principal

mutual
  pub data Predicate (Net : Type 0) : Type 0 where
    address : List Net → Predicate Net
    country : List Text → Predicate Net
    user : List Text → Predicate Net
    group : List Text → Predicate Net
    is_authenticated : Predicate Net
    negated : Predicate Net → Predicate Net
    both : Predicates Net → Predicate Net

  pub data Predicates (Net : Type 0) : Type 0 where
    nil : Predicates Net
    cons : Predicate Net → Predicates Net → Predicates Net

unfoldable mutual
  pub needs_geoip : {Net : Type 0} → Predicate Net → Bool
  needs_geoip (country codes) = true
  needs_geoip (negated p) = needs_geoip p
  needs_geoip (both ps) = any_needs_geoip ps
  needs_geoip (address _) = false
  needs_geoip (user _) = false
  needs_geoip (group _) = false
  needs_geoip is_authenticated = false

  pub any_needs_geoip : {Net : Type 0} → Predicates Net → Bool
  any_needs_geoip nil = false
  any_needs_geoip (cons p ps) = needs_geoip p || any_needs_geoip ps

unfoldable mutual
  pub needs_auth : {Net : Type 0} → Predicate Net → Bool
  needs_auth is_authenticated = true
  needs_auth (user _) = true
  needs_auth (group _) = true
  needs_auth (negated p) = needs_auth p
  needs_auth (both ps) = any_needs_auth ps
  needs_auth (address _) = false
  needs_auth (country _) = false

  pub any_needs_auth : {Net : Type 0} → Predicates Net → Bool
  any_needs_auth nil = false
  any_needs_auth (cons p ps) = needs_auth p || any_needs_auth ps

pub data PredicateResult : Type 0 where
  matched unmatched : PredicateResult
  challenge : ℕ → PredicateResult

pub data PolicyAction : Type 0 where
  allow : PolicyAction
  deny : ℕ → PolicyAction
  redirect : Text → ℕ → PolicyAction

pub record PolicyRule (Net : Type 0) : Type 0 where
  pub predicate : Option (Predicate Net)
  pub action : PolicyAction

pub record PolicyBlock (Net : Type 0) : Type 0 where
  pub rules : List (PolicyRule Net)
  pub needs_geoip : Bool
  pub redirect_templates : List (Option (List Part))

pub data PolicyOutcome : Type 0 where
  allow : PolicyOutcome
  deny : ℕ → PolicyOutcome
  redirect : List Part → ℕ → PolicyOutcome

-- `auth` answers the n-th call of the provider; `calls` counts the calls made.
pub record EvalContext : Type 0 where
  pub peer : IpAddr
  pub country : Option Text
  pub principal : Option Principal
  pub auth : ℕ → Principal
  pub calls : ℕ

unfoldable pub normalise : IpAddr → IpAddr
unfolding to_ipv4_mapped
normalise (v4 a) = v4 a
normalise (v6 a) = elim (to_ipv4_mapped a) [ some b ↦ v4 b | none ↦ v6 a ]

-- `EvalContext::new`.
unfoldable pub new_context : IpAddr → Option Text → (ℕ → Principal) → EvalContext
unfolding normalise
new_context peer code auth = record {
  peer = normalise peer;
  country = code;
  principal = none;
  auth = auth;
  calls = 0;
}

unfoldable pub take_principal : EvalContext → Principal
take_principal ctx = elim ctx.principal [ some p ↦ p | none ↦ anonymous ]

-- Lazily authenticates, and keeps the answer.
unfoldable pub resolve_principal : EvalContext → Principal × EvalContext
resolve_principal ctx = elim ctx.principal [
  | some p ↦ (p, ctx)
  | none ↦ (
    ctx.auth ctx.calls,
    record ctx { principal = some (ctx.auth ctx.calls); calls = ctx.calls + 1 },
  )
]
