-- ===== src/Tests/Routing.antt =====
-- A small site: its locations, a rewrite, and its policies.
use hypershunt.Prelude.{
  ℕ, ◌≡◌, ◌≢◌, ◌↔◌, refl, Bool, true, false, Option, none, some, List, [], ◌∷◌, ◌==◌,
}
use hypershunt.Prelude.Text.{Text, codes, eq_text, split_once, strip_prefix, contains_text}
use hypershunt.Prelude.Result.{ok, err}
use hypershunt.Headers.{find_name}
use hypershunt.Net.{IpAddr, v4, v6}
use hypershunt.Access.{
  address, user, PolicyAction, PolicyRule, EvalContext, authenticated, new_context, evaluate,
  new_block, needs_auth,
}
use hypershunt.Router.{
  UriOps, Request, Location, strip_port, rewritten, starts_with, candidates, insert_sorted,
  sort_candidates, precedes, accepts, first_accepting, pick_location, rewritten_by, apply_rewrite,
  route_loop, max_rewrites, PolicyRuleDef, rule, apply, too_deep, as_rule, identifies,
  resolve_rule_defs, resolve_one, resolve_names, resolve_named_policies, check_tcp_predicate,
  check_tcp_block_rules, identity_predicate, inline_rules, resolve_block,
}
use hypershunt.Router.Locate.{best_location, pick_location-best_location}
use hypershunt.Router.Rewrites.{Settles, route_loop_iff}
use hypershunt.Router.Resolution.{Expands, resolve_named_policies-Expands}
use hypershunt.Router.Depth.{resolve_named_policies-deep}
use hypershunt.Router.Inlining.{resolve_block-anonymous}

-- A uri is its path; a regex is the text that it matches.
abbrev uri_ops : UriOps Text Text
uri_ops = record {
  uri_path = λ u. u;
  with_path_and_query = λ u pq. some pq;
  is_match = eq_text;
  replace = λ re path to. to;
}

abbrev Site : Type 0
Site = List (Location Text Text (Unit {0}) ℕ)

abbrev site : Site
site =
    record { path = codes "/"; handler = 0; matcher = none; rewrite = none }
    ∷ record { path = codes "/a"; handler = 1; matcher = some (λ r. false); rewrite = none }
    ∷ record {
      path = codes "/a";
      handler = 2;
      matcher = none;
      rewrite = some (record { from = codes "/ab"; to = codes "/c" });
    }
    ∷ []

abbrev request : Request Text (Unit {0})
request = record { host = none; uri = codes "/ab"; rest = tt }

pick_location-best_location_example :
    pick_location uri_ops site request ≡ best_location (codes "/ab") request site
pick_location-best_location_example = pick_location-best_location uri_ops site request

-- The matcher of the first of two equally long paths refuses.
picked :
    best_location (codes "/ab") request site
    ≡ some (record {
      path = codes "/a";
      handler = 2;
      matcher = none;
      rewrite = some (record { from = codes "/ab"; to = codes "/c" });
    })
unfolding best_location starts_with strip_prefix accepts
picked = refl

abbrev root : Location Text Text (Unit {0}) ℕ
root = record { path = codes "/"; handler = 0; matcher = none; rewrite = none }

route_loop_iff_example :
    (route_loop uri_ops max_rewrites site request
      ≡ some (root, record request { uri = codes "/c" }))
    ↔ Settles uri_ops site max_rewrites request root (record request { uri = codes "/c" })
route_loop_iff_example =
    route_loop_iff uri_ops site max_rewrites request root (record request { uri = codes "/c" })

rewritten_once :
    route_loop uri_ops max_rewrites site request ≡ some (root, record request { uri = codes "/c" })
unfolding route_loop pick_location first_accepting sort_candidates insert_sorted precedes candidates
    starts_with strip_prefix accepts rewritten_by apply_rewrite rewritten split_once eq_text
rewritten_once = refl

-- The port goes, also behind an IPv6 address.
stripped : (strip_port (codes "h:80") ≡ codes "h") × (strip_port (codes "[::1]:80") ≡ codes "[::1]")
unfolding strip_port split_once
stripped = (refl, refl)

abbrev policies : List (Text × List (PolicyRuleDef ℕ))
policies =
    (codes "p", rule (some (address (7 ∷ []))) PolicyAction.allow ∷ apply (codes "q") ∷ [])
    ∷ (codes "q", rule none (PolicyAction.deny 403) ∷ [])
    ∷ []

abbrev inlined : List (PolicyRule ℕ)
inlined =
    as_rule (some (address (7 ∷ []))) PolicyAction.allow ∷ as_rule none (PolicyAction.deny 403) ∷ []

abbrev named : List (Text × List (PolicyRule ℕ))
named = (codes "p", inlined) ∷ (codes "q", as_rule none (PolicyAction.deny 403) ∷ []) ∷ []

resolved : resolve_named_policies policies ≡ ok named
unfolding resolve_named_policies resolve_names resolve_one resolve_rule_defs find_name contains_text
    eq_text
resolved = refl

found :
    find_name (codes "p") policies
    ≡ some (rule (some (address (7 ∷ []))) PolicyAction.allow ∷ apply (codes "q") ∷ [])
unfolding find_name eq_text
found = refl

resolve_named_policies-Expands_example :
    (rules : List (PolicyRule ℕ)) × (find_name (codes "p") named ≡ some rules)
    × Expands policies
        (rule (some (address (7 ∷ []))) PolicyAction.allow ∷ apply (codes "q") ∷ [])
        rules
resolve_named_policies-Expands_example =
    resolve_named_policies-Expands policies named (codes "p")
      (rule (some (address (7 ∷ []))) PolicyAction.allow ∷ apply (codes "q") ∷ []) resolved found

-- Two policies that apply each other.
abbrev circle : List (Text × List (PolicyRuleDef ℕ))
circle = (codes "p", apply (codes "q") ∷ []) ∷ (codes "q", apply (codes "p") ∷ []) ∷ []

resolve_named_policies-deep_example : resolve_named_policies circle ≢ err too_deep
resolve_named_policies-deep_example = resolve_named_policies-deep circle

abbrev header_name : Text → Option Text
header_name name = some name

abbrev same : ℕ → IpAddr → Bool
same n (v4 a) = a == n
same n (v6 a) = false

abbrev ctx : EvalContext
ctx = new_context (v4 7) none (λ n. authenticated (record { username = codes "ada"; groups = [] }))

abbrev stream_rules : List (PolicyRuleDef ℕ)
stream_rules = apply (codes "p") ∷ []

stream_block :
    resolve_block header_name stream_rules named true ≡ ok (new_block header_name inlined)
unfolding resolve_block inline_rules check_tcp_block_rules identifies needs_auth find_name eq_text
stream_block = refl

resolve_block-anonymous_example :
    (evaluate header_name same (new_block header_name inlined) ctx).1 ≡ ctx
resolve_block-anonymous_example =
    resolve_block-anonymous header_name same stream_rules named (new_block header_name inlined) ctx
      stream_block

-- A policy with an identity predicate is refused for a stream listener.
refused :
    inline_rules (rule (some (user (codes "ada" ∷ []))) PolicyAction.allow ∷ []) named true
    ≡ err identity_predicate
unfolding inline_rules check_tcp_predicate identifies needs_auth
refused = refl
