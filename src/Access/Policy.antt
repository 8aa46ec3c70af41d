-- ===== src/Access/Policy.antt =====
-- A request's evaluation, from the fresh context of `EvalContext::new` of src/access.rs.
use hypershunt.Prelude.{ℕ, ◌<◌, ◌≡◌, refl, ap, ◌∙◌, ◌⊎◌, inl, inr, Bool, Option, none, List, arith}
use hypershunt.Prelude.Text.{Text}
use hypershunt.Net.{IpAddr, v4, v6, mapped, to_ipv4_mapped-mapped}
use hypershunt.Access.Defs.{
  Principal, PolicyRule, PolicyBlock, normalise, new_context, take_principal,
}
use hypershunt.Access.Eval.{evaluate}
use hypershunt.Access.Meaning.{resolved}
use hypershunt.Access.Built.{IsBuilt, built-Follows}

resolved_fresh :
    (peer : IpAddr) (from : Option Text) (auth : ℕ → Principal)
    → ((resolved (new_context peer from auth)).calls ≡ 1)
      × (take_principal (resolved (new_context peer from auth)) ≡ auth 0)
unfolding resolved new_context take_principal
resolved_fresh peer from auth = (refl, refl)

fresh_calls :
    (peer : IpAddr) (from : Option Text) (auth : ℕ → Principal)
    → (new_context peer from auth).calls ≡ 0
unfolding new_context
fresh_calls peer from auth = refl

normalise-mapped : (a : ℕ) → a < 4_294_967_296 → normalise (v6 (mapped a)) ≡ v4 a
unfolding normalise
normalise-mapped a h = ground (arith, to_ipv4_mapped-mapped a h)

new_context-mapped :
    (a : ℕ) (from : Option Text) (auth : ℕ → Principal)
    → a < 4_294_967_296
    → new_context (v6 (mapped a)) from auth ≡ new_context (v4 a) from auth
unfolding new_context normalise
new_context-mapped a from auth h =
    ap (λ ip. record { peer = ip; country = from; principal = none; auth = auth; calls = 0 })
      (normalise-mapped a h ∙ normalise_v4 a)
  where
    normalise_v4 : (b : ℕ) → v4 b ≡ normalise (v4 b)
    normalise_v4 b = refl

module _ (header_name : Text → Option Text) {Net : Type 0} (contains : Net → IpAddr → Bool) where
  -- From a fresh context, one evaluation of a block of `new` or of `with_vars` asks the
  -- authentication provider at most once, however many rules name an identity; if it asks, the
  -- principal that is handed on is the provider's first answer.
  pub evaluate-calls :
      (rules : List (PolicyRule Net)) (block : PolicyBlock Net) (peer : IpAddr) (from : Option Text)
      (auth : ℕ → Principal)
      → IsBuilt header_name rules block
      → let after = (evaluate header_name contains block (new_context peer from auth)).1 in
        (after.calls ≡ 0) ⊎ ((after.calls ≡ 1) × (take_principal after ≡ auth 0))
  evaluate-calls rules block peer from auth built =
      let (template, follows) = built-Follows header_name contains rules block built in
      elim ((follows (new_context peer from auth)).1) [
        | inl e ↦ inl (ap (λ c. c.calls) e ∙ fresh_calls peer from auth)
        | inr e ↦
            let (n, p) = resolved_fresh peer from auth in
            inr (ap (λ c. c.calls) e ∙ n, ap take_principal e ∙ p)
      ]

  -- A peer given as the IPv4-mapped IPv6 form of a 32-bit address is evaluated as that IPv4 peer.
  pub evaluate-mapped :
      (block : PolicyBlock Net) (a : ℕ) (from : Option Text) (auth : ℕ → Principal)
      → a < 4_294_967_296
      → evaluate header_name contains block (new_context (v6 (mapped a)) from auth)
        ≡ evaluate header_name contains block (new_context (v4 a) from auth)
  evaluate-mapped block a from auth h =
      ap (evaluate header_name contains block) (new_context-mapped a from auth h)
