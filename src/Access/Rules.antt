-- ===== src/Access/Rules.antt =====
-- What each predicate of src/access.rs answers for a peer, a country and a principal: a relation by
-- rules that shares no function with the evaluator.
use hypershunt.Prelude.{ℕ, ◌≡◌, ◌⊎◌, Bool, true, Option, some, List, [], ◌∷◌}
use hypershunt.Prelude.Text.{Text}
use hypershunt.Net.{IpAddr}
use hypershunt.Access.Defs.{
  Identity, Principal, anonymous, authenticated, Predicate, Predicates, address, country, user,
  group, is_authenticated, negated, both, nil, cons, PredicateResult, matched, unmatched, challenge,
}

-- An element of a list.
abbrev pub Among : {A : Type 0} → A → List A → Type 0
Among x [] = ⊥
Among x (y ∷ ys) = (x ≡ y) ⊎ Among x ys

-- A known country that is one of the codes.
abbrev pub IsFrom : Option Text → List Text → Type 0
IsFrom from codes = (c : Text) × (from ≡ some c) × Among c codes

-- Some group is on both lists.
abbrev pub AreShared : List Text → List Text → Type 0
AreShared groups own = (g : Text) × Among g groups × Among g own

module _ {Net : Type 0} (contains : Net → IpAddr → Bool) (peer : IpAddr) (from : Option Text)
    (principal : Principal) where
  -- One of the networks contains the peer.
  abbrev pub IsCovered : List Net → Type 0
  IsCovered nets = (n : Net) × Among n nets × (contains n peer ≡ true)

  mutual
    pub data Yields : Predicate Net → PredicateResult → Type 0 where
      inside : (nets : List Net) → IsCovered nets → Yields (address nets) matched
      outside : (nets : List Net) → ¬ IsCovered nets → Yields (address nets) unmatched
      at_home : (codes : List Text) → IsFrom from codes → Yields (country codes) matched
      abroad : (codes : List Text) → ¬ IsFrom from codes → Yields (country codes) unmatched
      logged_in : (id : Identity) → principal ≡ authenticated id → Yields is_authenticated matched
      logged_out : principal ≡ anonymous → Yields is_authenticated (challenge 401)
      named :
          (names : List Text) (id : Identity)
          → principal ≡ authenticated id
          → Among id.username names
          → Yields (user names) matched
      unnamed :
          (names : List Text) (id : Identity)
          → principal ≡ authenticated id
          → ¬ Among id.username names
          → Yields (user names) unmatched
      nameless : (names : List Text) → principal ≡ anonymous → Yields (user names) (challenge 401)
      member :
          (groups : List Text) (id : Identity)
          → principal ≡ authenticated id
          → AreShared groups id.groups
          → Yields (group groups) matched
      outsider :
          (groups : List Text) (id : Identity)
          → principal ≡ authenticated id
          → ¬ AreShared groups id.groups
          → Yields (group groups) unmatched
      groupless :
          (groups : List Text) → principal ≡ anonymous → Yields (group groups) (challenge 401)
      denied : (p : Predicate Net) → Yields p matched → Yields (negated p) unmatched
      granted : (p : Predicate Net) → Yields p unmatched → Yields (negated p) matched
      unchallenged :
          (p : Predicate Net) (code : ℕ) → Yields p (challenge code) → Yields (negated p) matched
      all_of : (ps : Predicates Net) (r : PredicateResult) → YieldsAll ps r → Yields (both ps) r

    -- A conjunction, read from the left: the first answer that is not a match is its answer.
    pub data YieldsAll : Predicates Net → PredicateResult → Type 0 where
      none_left : YieldsAll nil matched
      goes_on :
          (p : Predicate Net) (ps : Predicates Net) (r : PredicateResult)
          → Yields p matched
          → YieldsAll ps r
          → YieldsAll (cons p ps) r
      stops :
          (p : Predicate Net) (ps : Predicates Net)
          → Yields p unmatched
          → YieldsAll (cons p ps) unmatched
      stops_challenged :
          (p : Predicate Net) (ps : Predicates Net) (code : ℕ)
          → Yields p (challenge code)
          → YieldsAll (cons p ps) (challenge code)
