-- ===== src/Access/Answers.antt =====
-- `eval_predicate` of src/access.rs against the rules of `Rules`.
use hypershunt.Prelude.{
  ◌≡◌, ◌↔◌, refl, sym, subst, ap, ◌∙◌, ◌⊎◌, inl, inr, Bool, true, false, Option, none, some, List,
  [], ◌∷◌, any, arith, Bool-cases,
}
use hypershunt.Prelude.Text.{Text, eq_text, contains_text, eq_text_iff}
use hypershunt.Net.{IpAddr}
use hypershunt.Access.Defs.{
  Identity, Principal, anonymous, authenticated, Predicate, Predicates, address, country, user,
  group, is_authenticated, negated, both, nil, cons, PredicateResult, matched, unmatched, challenge,
  EvalContext,
}
use hypershunt.Access.Rules.{
  Among, IsFrom, AreShared, Yields, YieldsAll, inside, outside, at_home, abroad, logged_in,
  logged_out, named, unnamed, nameless, member, outsider, groupless, denied, granted, unchallenged,
  all_of, none_left, goes_on, stops, stops_challenged,
}
use hypershunt.Access.Eval.{
  match_if, match_identity, negate, in_country, shares_group, eval_predicate,
}
use hypershunt.Access.Meaning.{
  meaning, meaning_all, then_also, who, resolved, eval_predicate-meaning,
}

any_iff :
    {A : Type 0} (test : A → Bool) (xs : List A)
    → (any test xs ≡ true) ↔ ((x : A) × Among x xs × (test x ≡ true))
any_iff {A = A} test xs = (found xs, λ (x, at, h). holds xs x at h)
  where
    found : (ys : List A) → any test ys ≡ true → (x : A) × Among x ys × (test x ≡ true)
    found [] h = absurd (ground arith)
    found (y ∷ ys) h = elim (Bool-cases (test y)) [
      | inl e ↦ (y, inl refl, e)
      | inr e ↦ let (x, at, k) = found ys (ground arith) in (x, inr at, k)
    ]

    holds : (ys : List A) (x : A) → Among x ys → test x ≡ true → any test ys ≡ true
    holds [] x at h = absurd at
    holds (y ∷ ys) x (inl e) h = let here : test y ≡ true = rw e at h in ground arith
    holds (y ∷ ys) x (inr at) h = let rest = holds ys x at h in ground arith

contains_text_iff : (ts : List Text) (s : Text) → (contains_text ts s ≡ true) ↔ Among s ts
unfolding contains_text
contains_text_iff [] s = ((λ h. absurd (ground arith)), λ at. absurd at)
contains_text_iff (t ∷ ts) s =
    let same = eq_text_iff t s in let rest = contains_text_iff ts s in ground (arith, same, rest)

-- The answer of a test that decides a condition.
match_if-decides :
    (Y : PredicateResult → Type 0) (P : Type 0) (b : Bool)
    → ((b ≡ true) ↔ P)
    → (P → Y matched)
    → (¬ P → Y unmatched)
    → Y (match_if b)
match_if-decides Y P true (f, g) meets fails = meets (f refl)
match_if-decides Y P false (f, g) meets fails = fails (λ h. absurd (ground (arith, g h)))

match_if-false : (P : Type 0) (b : Bool) → ((b ≡ true) ↔ P) → ¬ P → match_if b ≡ unmatched
match_if-false P true (f, g) fails = absurd (fails (f refl))
match_if-false P false (f, g) fails = refl

in_country_iff :
    (o : Option Text) (codes : List Text) → (in_country o codes ≡ true) ↔ IsFrom o codes
unfolding in_country
in_country_iff none codes = ((λ h. absurd (ground arith)), λ (c, e, at). absurd (ground (arith, e)))
in_country_iff (some d) codes = (
  λ h.
      let (c, at, e) = (any_iff (λ code. eq_text d code) codes).0 h in
      (c, ap some ((eq_text_iff d c).0 e), at),
  λ (c, e, at).
      let same : d ≡ c = ground (arith, e) in
      (any_iff (λ code. eq_text d code) codes).1 (c, at, (eq_text_iff d c).1 same),
)

shares_group_iff :
    (groups own : List Text) → (shares_group groups own ≡ true) ↔ AreShared groups own
unfolding shares_group
shares_group_iff groups own =
    let found = any_iff (λ g. contains_text groups g) own in
    (
      λ h. let (g, at, e) = found.0 h in (g, (contains_text_iff groups g).0 e, at),
      λ (g, there, at). found.1 (g, at, (contains_text_iff groups g).1 there),
    )

identity_decides :
    (Y : PredicateResult → Type 0) (P : Identity → Type 0) (test : Identity → Bool)
    (principal : Principal)
    → ((id : Identity) → (test id ≡ true) ↔ P id)
    → ((id : Identity) → principal ≡ authenticated id → P id → Y matched)
    → ((id : Identity) → principal ≡ authenticated id → ¬ P id → Y unmatched)
    → (principal ≡ anonymous → Y (challenge 401))
    → Y (match_identity test principal)
identity_decides Y P test anonymous decides meets fails nobody = nobody refl
identity_decides Y P test (authenticated id) decides meets fails nobody =
    match_if-decides Y (P id) (test id) (decides id) (meets id refl) (fails id refl)

negate-Yields :
    {Net : Type 0} (contains : Net → IpAddr → Bool) (peer : IpAddr) (from : Option Text)
    (principal : Principal) (p : Predicate Net) (r : PredicateResult)
    → Yields contains peer from principal p r
    → Yields contains peer from principal (negated p) (negate r)
negate-Yields contains peer from principal p matched y = denied p y
negate-Yields contains peer from principal p unmatched y = granted p y
negate-Yields contains peer from principal p (challenge code) y = unchallenged p code y

then_also-YieldsAll :
    {Net : Type 0} (contains : Net → IpAddr → Bool) (peer : IpAddr) (from : Option Text)
    (principal : Principal) (p : Predicate Net) (ps : Predicates Net) (r s : PredicateResult)
    → Yields contains peer from principal p r
    → YieldsAll contains peer from principal ps s
    → YieldsAll contains peer from principal (cons p ps) (then_also r s)
then_also-YieldsAll contains peer from principal p ps matched s y ys = goes_on p ps s y ys
then_also-YieldsAll contains peer from principal p ps unmatched s y ys = stops p ps y
then_also-YieldsAll contains peer from principal p ps (challenge code) s y ys =
    stops_challenged p ps code y

module _ {Net : Type 0} (contains : Net → IpAddr → Bool) (peer : IpAddr) (from : Option Text)
    (principal : Principal) where
  mutual
    unfolding meaning meaning_all

    Yields-meaning :
        (p : Predicate Net)
        → Yields contains peer from principal p (meaning contains peer from principal p)
    Yields-meaning (address nets) =
        match_if-decides (Yields contains peer from principal (address nets)) _ _
          (any_iff (λ n. contains n peer) nets) (inside nets) (outside nets)
    Yields-meaning (country codes) =
        match_if-decides (Yields contains peer from principal (country codes)) _ _
          (in_country_iff from codes) (at_home codes) (abroad codes)
    Yields-meaning is_authenticated =
        identity_decides (Yields contains peer from principal is_authenticated) (λ id. Unit) _
          principal (λ id. ((λ h. tt), λ h. refl)) (λ id e h. logged_in id e)
          (λ id e h. absurd (h tt)) logged_out
    Yields-meaning (user names) =
        identity_decides (Yields contains peer from principal (user names))
          (λ id. Among id.username names) _ principal (λ id. contains_text_iff names id.username)
          (named names) (unnamed names) (nameless names)
    Yields-meaning (group groups) =
        identity_decides (Yields contains peer from principal (group groups))
          (λ id. AreShared groups id.groups) _ principal (λ id. shares_group_iff groups id.groups)
          (member groups) (outsider groups) (groupless groups)
    Yields-meaning (negated p) = negate-Yields contains peer from principal p _ (Yields-meaning p)
    Yields-meaning (both ps) = all_of ps _ (YieldsAll-meaning_all ps)

    YieldsAll-meaning_all :
        (ps : Predicates Net)
        → YieldsAll contains peer from principal ps (meaning_all contains peer from principal ps)
    YieldsAll-meaning_all nil = none_left
    YieldsAll-meaning_all (cons p ps) =
        then_also-YieldsAll contains peer from principal p ps _ _ (Yields-meaning p)
          (YieldsAll-meaning_all ps)

  mutual
    unfolding meaning meaning_all

    meaning-Yields :
        (p : Predicate Net) (r : PredicateResult)
        → Yields contains peer from principal p r
        → meaning contains peer from principal p ≡ r
    meaning-Yields _ _ (inside nets h) = rw ((any_iff (λ n. contains n peer) nets).1 h) refl
    meaning-Yields _ _ (outside nets h) = match_if-false _ _ (any_iff (λ n. contains n peer) nets) h
    meaning-Yields _ _ (at_home codes h) = rw ((in_country_iff from codes).1 h) refl
    meaning-Yields _ _ (abroad codes h) = match_if-false _ _ (in_country_iff from codes) h
    meaning-Yields _ _ (logged_in id e) = rw e refl
    meaning-Yields _ _ (logged_out e) = rw e refl
    meaning-Yields _ _ (named names id e h) = rw (e, (contains_text_iff names id.username).1 h) refl
    meaning-Yields _ _ (unnamed names id e h) =
        rw e (match_if-false _ _ (contains_text_iff names id.username) h)
    meaning-Yields _ _ (nameless names e) = rw e refl
    meaning-Yields _ _ (member groups id e h) = rw (e, (shares_group_iff groups id.groups).1 h) refl
    meaning-Yields _ _ (outsider groups id e h) =
        rw e (match_if-false _ _ (shares_group_iff groups id.groups) h)
    meaning-Yields _ _ (groupless groups e) = rw e refl
    meaning-Yields _ _ (denied p y) = ap negate (meaning-Yields p matched y)
    meaning-Yields _ _ (granted p y) = ap negate (meaning-Yields p unmatched y)
    meaning-Yields _ _ (unchallenged p code y) = ap negate (meaning-Yields p (challenge code) y)
    meaning-Yields _ _ (all_of ps r ys) = meaning_all-YieldsAll ps r ys

    meaning_all-YieldsAll :
        (ps : Predicates Net) (r : PredicateResult)
        → YieldsAll contains peer from principal ps r
        → meaning_all contains peer from principal ps ≡ r
    meaning_all-YieldsAll _ _ none_left = refl
    meaning_all-YieldsAll _ _ (goes_on p ps r y ys) =
        rw (meaning-Yields p matched y) (meaning_all-YieldsAll ps r ys)
    meaning_all-YieldsAll _ _ (stops p ps y) = rw (meaning-Yields p unmatched y) refl
    meaning_all-YieldsAll _ _ (stops_challenged p ps code y) =
        rw (meaning-Yields p (challenge code) y) refl

module _ {Net : Type 0} (contains : Net → IpAddr → Bool) where
  -- The stateful evaluator gives exactly the answer of the rules of `Yields`, for the principal
  -- that the context has, or would get from the provider, and leaves the context as it was or with
  -- that principal kept. By those rules an address or country predicate matches or not; an identity
  -- predicate challenges an anonymous client with 401, and else matches or not; `Not` inverts, and
  -- takes a challenge for a match; `And` answers with the first answer that is not a match, if any.
  pub eval_predicate-Yields :
      (p : Predicate Net) (ctx : EvalContext) (r : PredicateResult)
      → (((eval_predicate contains p ctx).0 ≡ r)
          ↔ Yields contains ctx.peer ctx.country (who ctx) p r)
        × (((eval_predicate contains p ctx).1 ≡ ctx)
            ⊎ ((eval_predicate contains p ctx).1 ≡ resolved ctx))
  eval_predicate-Yields p ctx r =
      let (same, leaves) = eval_predicate-meaning contains p ctx in
      let yields = Yields-meaning contains ctx.peer ctx.country (who ctx) p in
      (
        (
          (λ e.
              subst (λ x. Yields contains ctx.peer ctx.country (who ctx) p x) (sym same ∙ e)
                yields),
          λ y. same ∙ meaning-Yields contains ctx.peer ctx.country (who ctx) p r y,
        ),
        leaves,
      )
