-- ===== src/Prelude/Text.antt =====
-- Rust's `&str` as the list of its UTF-8 bytes, with the `str` methods that the source calls.
use Prim.Native.Nat.{ℕ, ◌+◌, ◌-◌, ◌*◌, ◌<◌}
use Prim.Native.Char.{code}
use Prim.Native.String.{String}
use mathlib.Core.Path.{◌≡◌, refl}
use mathlib.Core.Logic.{◌↔◌}
use mathlib.Core.Bool.{Bool, true, false, ◌&&◌, ◌||◌}
use mathlib.Core.Option.{Option, none, some}
use mathlib.Core.List.{List, [], ◌∷◌, ◌++◌, map, reverse}
use native.Mathlib.Omega.{arith}
use hypershunt.Prelude.Tests.{ltb, ◌==◌, if◌then◌else◌, in_range}

abbrev pub Text : Type 0
Text = List ℕ

-- The bytes of an ASCII literal.
abbrev pub codes : String → Text
codes String.[] = []
codes (String.◌∷◌ c s) = code c ∷ codes s

-- `==` on `str`.
unfoldable pub eq_text : Text → Text → Bool
eq_text [] [] = true
eq_text [] (_ ∷ _) = false
eq_text (_ ∷ _) [] = false
eq_text (a ∷ s) (b ∷ t) = a == b && eq_text s t

pub eq_text_iff : (s t : Text) → (eq_text s t ≡ true) ↔ (s ≡ t)
unfolding eq_text
eq_text_iff [] [] = ground arith
eq_text_iff [] (b ∷ t) = ground arith
eq_text_iff (a ∷ s) [] = ground arith
eq_text_iff (a ∷ s) (b ∷ t) = ground (arith, eq_text_iff s t)

pub eq_text_refl : (s : Text) → eq_text s s ≡ true
eq_text_refl s = (eq_text_iff s s).1 refl

-- `list.contains(&s)` and `iter().any(|t| t == s)`.
unfoldable pub contains_text : List Text → Text → Bool
contains_text [] s = false
contains_text (t ∷ ts) s = eq_text t s || contains_text ts s

-- `str::strip_prefix`.
unfoldable pub strip_prefix : Text → Text → Option Text
strip_prefix [] s = some s
strip_prefix (p ∷ ps) [] = none
strip_prefix (p ∷ ps) (c ∷ s) = if p == c then strip_prefix ps s else none

pub strip_prefix-some : (p s r : Text) → strip_prefix p s ≡ some r → s ≡ p ++ r
unfolding strip_prefix
strip_prefix-some [] s r h = ground arith
strip_prefix-some (p ∷ ps) [] r h = ground arith
strip_prefix-some (p ∷ ps) (c ∷ s) r h = ground (arith, strip_prefix-some ps s r)

pub strip_prefix-append : (p r : Text) → strip_prefix p (p ++ r) ≡ some r
unfolding strip_prefix
strip_prefix-append [] r = refl
strip_prefix-append (p ∷ ps) r = ground (arith, strip_prefix-append ps r)

-- `str::contains(char)`, for an ASCII character.
unfoldable pub contains_byte : ℕ → Text → Bool
contains_byte c [] = false
contains_byte c (b ∷ s) = b == c || contains_byte c s

-- `s.split_once(c)`, and `s.find(c)` with the two slices that its callers take: what stands before
-- the first `c`, and what stands after it.
unfoldable pub split_once : ℕ → Text → Option (Text × Text)
split_once c [] = none
split_once c (b ∷ s) =
    if b == c
    then some ([], s)
    else elim (split_once c s) [ none ↦ none | some (l, r) ↦ some (b ∷ l, r) ]

pub split_once-some :
    (c : ℕ) (s l r : Text)
    → split_once c s ≡ some (l, r)
    → (s ≡ l ++ c ∷ r) × (contains_byte c l ≡ false)
unfolding split_once contains_byte
split_once-some c [] l r h = ground arith
split_once-some c (b ∷ s) [] r h = ground arith
split_once-some c (b ∷ s) (a ∷ l) r h = ground (arith, split_once-some c s l r)

pub split_once-none : (c : ℕ) (s : Text) → split_once c s ≡ none → contains_byte c s ≡ false
unfolding split_once contains_byte
split_once-none c [] h = refl
split_once-none c (b ∷ s) h = ground (arith, split_once-none c s)

pub split_once-append :
    (c : ℕ) (l r : Text) → contains_byte c l ≡ false → split_once c (l ++ c ∷ r) ≡ some (l, r)
unfolding split_once contains_byte
split_once-append c [] r h = ground arith
split_once-append c (b ∷ l) r h = ground (arith, split_once-append c l r)

abbrev cons_head : ℕ → List Text → List Text
cons_head b [] = (b ∷ []) ∷ []
cons_head b (t ∷ ts) = (b ∷ t) ∷ ts

-- `str::split(c)`: always at least one piece.
unfoldable pub split : ℕ → Text → List Text
split c [] = [] ∷ []
split c (b ∷ s) = let rest = split c s in if b == c then [] ∷ rest else cons_head b rest

-- ASCII white space, as `str::trim` removes it from an ASCII text.
abbrev pub is_space : ℕ → Bool
is_space b = b == 32 || in_range 9 13 b

unfoldable pub trim_start : Text → Text
trim_start [] = []
trim_start (b ∷ s) = let rest = trim_start s in if is_space b then rest else b ∷ s

unfoldable pub trim : Text → Text
unfolding trim_start
trim s = reverse (trim_start (reverse (trim_start s)))

-- `trim_start_matches(c)` and `trim_matches(c)`.
unfoldable pub trim_start_matches : ℕ → Text → Text
trim_start_matches c [] = []
trim_start_matches c (b ∷ s) = let rest = trim_start_matches c s in if b == c then rest else b ∷ s

unfoldable pub trim_matches : ℕ → Text → Text
unfolding trim_start_matches
trim_matches c s = reverse (trim_start_matches c (reverse (trim_start_matches c s)))

-- `u8::to_ascii_lowercase` and `str::to_ascii_lowercase`.
abbrev pub lower_byte : ℕ → ℕ
lower_byte b = if in_range b'A' b'Z' b then b + 32 else b

unfoldable pub to_ascii_lowercase : Text → Text
to_ascii_lowercase s = map lower_byte s

abbrev pub is_digit : ℕ → Bool
is_digit b = in_range b'0' b'9' b

-- The digits of `str::parse::<uN>`: `none` on a byte that is no digit, and on overflow.
unfoldable pub parse_digits : ℕ → ℕ → Text → Option ℕ
parse_digits bound acc [] = some acc
parse_digits bound acc (b ∷ s) =
    let next = acc * 10 + (b - b'0') in
    let rest = parse_digits bound next s in if is_digit b && ltb next bound then rest else none

-- `str::parse` into an unsigned type of `bound` values: one optional `+`, then at least one digit
-- (a lone `+` fails as a byte that is no digit).
unfoldable pub parse_uint : ℕ → Text → Option ℕ
unfolding parse_digits
parse_uint bound [] = none
parse_uint bound (b ∷ []) = parse_digits bound 0 (b ∷ [])
parse_uint bound (b ∷ c ∷ s) =
    if b == b'+' then parse_digits bound 0 (c ∷ s) else parse_digits bound 0 (b ∷ c ∷ s)

pub parse_digits-lt :
    (bound acc : ℕ) (s : Text) (n : ℕ) → acc < bound → parse_digits bound acc s ≡ some n → n < bound
unfolding parse_digits
parse_digits-lt bound acc [] n h e = ground arith
parse_digits-lt bound acc (b ∷ s) n h e =
    ground (arith, parse_digits-lt bound (acc * 10 + (b - b'0')) s n)

pub parse_uint-lt :
    (bound : ℕ) (s : Text) (n : ℕ) → 0 < bound → parse_uint bound s ≡ some n → n < bound
unfolding parse_uint
parse_uint-lt bound [] n h e = ground arith
parse_uint-lt bound (b ∷ []) n h e = ground (arith, parse_digits-lt bound 0 (b ∷ []) n)
parse_uint-lt bound (b ∷ c ∷ s) n h e =
    ground (arith, parse_digits-lt bound 0 (b ∷ c ∷ s) n, parse_digits-lt bound 0 (c ∷ s) n)

abbrev pub u64_values : ℕ
u64_values = 18_446_744_073_709_551_616

pub contains_text-append_left :
    (xs ys : List Text) (s : Text) → contains_text xs s ≡ true → contains_text (xs ++ ys) s ≡ true
unfolding contains_text
contains_text-append_left [] ys s h = ground arith
contains_text-append_left (x ∷ xs) ys s h = ground (arith, contains_text-append_left xs ys s)

pub contains_text-snoc : (xs : List Text) (s : Text) → contains_text (xs ++ s ∷ []) s ≡ true
unfolding contains_text
contains_text-snoc [] s = ground (arith, eq_text_refl s)
contains_text-snoc (x ∷ xs) s = ground (arith, contains_text-snoc xs s)
