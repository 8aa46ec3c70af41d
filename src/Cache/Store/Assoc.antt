-- ===== src/Cache/Store/Assoc.antt =====
-- Lists of keyed entries, most recently used first: lookup, removal, sizes.
use hypershunt.Prelude.{
  ℕ, ◌+◌, ◌≡◌, refl, ap, Bool, Option, none, some, List, [], ◌∷◌, ◌++◌, arith, Bool-cases,
  Option-cases, inl, inr, if◌then◌else◌,
}
use hypershunt.Prelude.Text.{Text, eq_text}

module _ {V : Type 0} where
  unfoldable pub lookup : Text → List (Text × V) → Option V
  lookup k [] = none
  lookup k ((j, v) ∷ es) = if eq_text j k then some v else lookup k es

  -- Without the entry of a key.
  unfoldable pub erase : Text → List (Text × V) → List (Text × V)
  erase k [] = []
  erase k ((j, v) ∷ es) = if eq_text j k then es else (j, v) ∷ erase k es

  -- The entries without the last one, and that one.
  unfoldable pub split_last : List (Text × V) → Option (List (Text × V) × (Text × V))
  split_last [] = none
  split_last (e ∷ es) = elim (split_last es) [
    | none ↦ some ([], e)
    | some (front, last) ↦ some (e ∷ front, last)
  ]

  abbrev pub filter : (V → Bool) → List (Text × V) → List (Text × V)
  filter p [] = []
  filter p ((k, v) ∷ es) = if p v then (k, v) ∷ filter p es else filter p es

  pub split_last-none : (es : List (Text × V)) → split_last es ≡ none → es ≡ []
  unfolding split_last
  split_last-none [] h = refl
  split_last-none (e ∷ es) h = elim (Option-cases (split_last es)) [
    | inl e' ↦ absurd (ground arith)
    | inr (p, e') ↦ absurd (ground arith)
  ]

  pub split_last_append :
      (es front : List (Text × V)) (e : Text × V)
      → split_last es ≡ some (front, e)
      → es ≡ front ++ e ∷ []
  unfolding split_last
  split_last_append [] front e h = absurd (ground arith)
  split_last_append (d ∷ es) front e h = elim (Option-cases (split_last es)) [
    | inl e' ↦
        let empty = split_last-none es e' in
        let same : front ≡ [] = ground arith in
        let last : d ≡ e = ground arith in rw (same, empty, last)
    | inr ((f, l), e') ↦
        let same : front ≡ d ∷ f = ground arith in
        let last : l ≡ e = ground arith in
        rw (same, ← last) (ap (◌∷◌ d) (split_last_append es f l e'))
  ]

module _ {V : Type 0} (size : V → ℕ) where
  -- The sizes of all entries together, and of one that may be missing.
  unfoldable pub total : List (Text × V) → ℕ
  total [] = 0
  total ((k, v) ∷ es) = size v + total es

  abbrev pub size_of : Option V → ℕ
  size_of none = 0
  size_of (some v) = size v

  pub total-erase :
      (k : Text) (es : List (Text × V)) → total (erase k es) + size_of (lookup k es) ≡ total es
  unfolding total erase lookup
  total-erase k [] = refl
  total-erase k ((j, v) ∷ es) = elim (Bool-cases (eq_text j k)) [
    | inl e ↦ rw e (omega arith)
    | inr e ↦ rw e (omega (arith, total-erase k es))
  ]

  pub total-append : (es fs : List (Text × V)) → total (es ++ fs) ≡ total es + total fs
  unfolding total
  total-append [] fs = omega arith
  total-append ((k, v) ∷ es) fs = omega (arith, total-append es fs)

  -- Dropping the last entry drops its size.
  pub total-split_last :
      (es front : List (Text × V)) (e : Text × V)
      → split_last es ≡ some (front, e)
      → total es ≡ total front + size e.1
  unfolding total
  total-split_last es front e h =
      rw (split_last_append es front e h) (omega (arith, total-append front (e ∷ [])))
