-- ===== src/Prelude/Decimal.antt =====
-- `to_string` of an unsigned number: its decimal digits, and what reading them back gives.
use Prim.Native.Nat.{ℕ, zero, suc, ◌+◌, ◌-◌, ◌*◌, ◌/◌, ◌%◌, ◌≤◌, ◌<◌}
use mathlib.Core.Path.{◌≡◌, ◌∙◌, refl}
use mathlib.Core.Bool.{true, false, ◌&&◌}
use mathlib.Core.Logic.{inl, inr}
use mathlib.Core.Option.{some}
use mathlib.Core.List.{[], ◌∷◌}
use native.Mathlib.Omega.{arith}
use hypershunt.Prelude.Tests.{ltb, if◌then◌else◌, Bool-cases}
use hypershunt.Prelude.Lists.{length, All}
use hypershunt.Prelude.Text.{Text, contains_byte, is_digit, parse_digits, parse_uint}

-- The digits of a number in front of a text; each round divides by ten, so the number is fuel enough.
unfoldable pub digits_onto : ℕ → ℕ → Text → Text
digits_onto zero n rest = rest
digits_onto (suc fuel) n rest =
    let more = digits_onto fuel (n / 10) ((48 + n % 10) ∷ rest) in
    if ltb n 10 then (48 + n) ∷ rest else more

unfoldable pub to_string : ℕ → Text
unfolding digits_onto
to_string n = digits_onto (suc n) n []

-- Reading the digits from zero is reading what follows them from the number.
parse_digits-digits_onto :
    (bound fuel n : ℕ) (rest : Text)
    → n < fuel
    → n < bound
    → parse_digits bound 0 (digits_onto fuel n rest) ≡ parse_digits bound n rest
unfolding digits_onto parse_digits
parse_digits-digits_onto bound zero n rest h k = absurd (omega arith)
parse_digits-digits_onto bound (suc fuel) n rest h k = elim (Bool-cases (ltb n 10)) [
  | inl e ↦
      let same : 0 * 10 + (48 + n - 48) ≡ n = omega arith in
      let small : (is_digit (48 + n) && ltb n bound) ≡ true = ground arith in
      rw (e, same, small) refl
  | inr e ↦
      let whole : n / 10 * 10 + (48 + n % 10 - 48) ≡ n = omega arith in
      let small : (is_digit (48 + n % 10) && ltb n bound) ≡ true = ground arith in
      rw e (
        parse_digits-digits_onto bound fuel (n / 10) ((48 + n % 10) ∷ rest) (ground arith)
          (omega arith)
        ∙ rw (whole, small) refl)
]

abbrev pub IsDigits : Text → Type 0
IsDigits s = All (λ b. is_digit b ≡ true) s

digits_onto-IsDigits :
    (fuel n : ℕ) (rest : Text) → n < fuel → IsDigits rest → IsDigits (digits_onto fuel n rest)
unfolding digits_onto
digits_onto-IsDigits zero n rest h d = d
digits_onto-IsDigits (suc fuel) n rest h d = elim (Bool-cases (ltb n 10)) [
  | inl e ↦ rw e (ground arith, d)
  | inr e ↦
      rw e
        (digits_onto-IsDigits fuel (n / 10) ((48 + n % 10) ∷ rest) (ground arith) (ground arith, d))
]

pub to_string-IsDigits : (n : ℕ) → IsDigits (to_string n)
unfolding to_string
to_string-IsDigits n = digits_onto-IsDigits (suc n) n [] (omega arith) tt

-- No byte but a digit is among them.
pub contains_byte-IsDigits :
    (c : ℕ) (s : Text) → is_digit c ≡ false → IsDigits s → contains_byte c s ≡ false
unfolding contains_byte
contains_byte-IsDigits c [] h d = refl
contains_byte-IsDigits c (b ∷ s) h (d, ds) = ground (arith, contains_byte-IsDigits c s h ds)

parse_uint-IsDigits :
    (bound : ℕ) (s : Text) → 0 < length s → IsDigits s → parse_uint bound s ≡ parse_digits bound 0 s
unfolding parse_uint
parse_uint-IsDigits bound [] h d = absurd (omega arith)
parse_uint-IsDigits bound (b ∷ []) h d = refl
parse_uint-IsDigits bound (b ∷ c ∷ s) h (d, ds) = ground arith

-- A power of ten, and the number of digits.
unfoldable pub tens : ℕ → ℕ
tens zero = 1
tens (suc k) = 10 * tens k

length-digits_onto :
    (k fuel n : ℕ) (rest : Text)
    → n < fuel
    → n < 10 * tens k
    → (length rest < length (digits_onto fuel n rest))
      × (length (digits_onto fuel n rest) ≤ suc k + length rest)
unfolding digits_onto tens
length-digits_onto k zero n rest h t = absurd (omega arith)
length-digits_onto zero (suc fuel) n rest h t = ground arith
length-digits_onto (suc k) (suc fuel) n rest h t = elim (Bool-cases (ltb n 10)) [
  | inl e ↦ rw e (omega arith)
  | inr e ↦ rw e (
      omega (
        arith,
        length-digits_onto k fuel (n / 10) ((48 + n % 10) ∷ rest) (ground arith) (omega arith),
      ))
]

pub length-to_string :
    (k n : ℕ) → n < 10 * tens k → (0 < length (to_string n)) × (length (to_string n) ≤ suc k)
unfolding to_string
length-to_string k n h =
    let both = length-digits_onto k (suc n) n [] (omega arith) h in omega (arith, both)

lt-tens : (n : ℕ) → n < 10 * tens n
unfolding tens
lt-tens zero = omega arith
lt-tens (suc n) = omega (arith, lt-tens n)

-- A number is read back from its digits, where it fits the type.
pub parse_uint-to_string : (bound n : ℕ) → n < bound → parse_uint bound (to_string n) ≡ some n
unfolding to_string parse_digits
parse_uint-to_string bound n h =
    parse_uint-IsDigits bound (to_string n) (length-to_string n n (lt-tens n)).0
      (to_string-IsDigits n)
    ∙ parse_digits-digits_onto bound (suc n) n [] (omega arith) h
