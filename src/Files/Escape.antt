-- ===== src/Files/Escape.antt =====
-- `html_escape`, `url_encode_segment`, `percent_decode` and `hex_nibble` of
-- src/handler/static_files.rs.
use hypershunt.Prelude.{
  ℕ, ◌+◌, ◌-◌, ◌*◌, ◌/◌, ◌%◌, ◌<◌, ◌≡◌, refl, ap, ◌∙◌, Bool, false, ◌||◌, Option, none, some, [],
  ◌∷◌, ◌++◌, ltb, ◌==◌, in_range, if◌then◌else◌, arith, Bool-cases, inl, inr, All, All-append,
}
use hypershunt.Prelude.Text.{Text, codes}

-- One character's text. (The five are ASCII; the bytes of any other pass through.)
abbrev pub escape_byte : ℕ → Text
escape_byte b =
    if b == b'&'
    then codes "&amp;"
    else if b == b'<'
    then codes "&lt;"
    else if b == b'>'
    then codes "&gt;"
    else if b == b'"'
    then codes "&quot;"
    else if b == 39
    then codes "&#39;"
    else b ∷ []

unfoldable pub html_escape : Text → Text
html_escape [] = []
html_escape (b ∷ s) = escape_byte b ++ html_escape s

abbrev pub is_unreserved : ℕ → Bool
is_unreserved b =
    in_range b'A' b'Z' b
    || in_range b'a' b'z' b
    || in_range b'0' b'9' b
    || b == b'-'
    || b == b'_'
    || b == b'.'
    || b == b'~'

-- A digit of `{:02X}`.
abbrev pub hex_digit : ℕ → ℕ
hex_digit n = if ltb n 10 then b'0' + n else b'A' + (n - 10)

unfoldable pub url_encode_segment : Text → Text
url_encode_segment [] = []
url_encode_segment (b ∷ s) =
    let rest = url_encode_segment s in
    if is_unreserved b then b ∷ rest else b'%' ∷ hex_digit (b / 16) ∷ hex_digit (b % 16) ∷ rest

unfoldable pub hex_nibble : ℕ → Option ℕ
hex_nibble b =
    if in_range b'0' b'9' b
    then some (b - b'0')
    else if in_range b'a' b'f' b
    then some (b - b'a' + 10)
    else if in_range b'A' b'F' b
    then some (b - b'A' + 10)
    else none

-- The byte that two digits spell.
unfoldable pub hex_byte : ℕ → ℕ → Option ℕ
unfolding hex_nibble
hex_byte h l = elim (hex_nibble h) [
  | none ↦ none
  | some a ↦ elim (hex_nibble l) [ none ↦ none | some b ↦ some (a * 16 + b) ]
]

-- `percent_decode` before `from_utf8_lossy`: an invalid sequence passes through.
unfoldable pub percent_decode : Text → Text
percent_decode [] = []
percent_decode (b ∷ []) = b ∷ []
percent_decode (b ∷ c ∷ []) = b ∷ c ∷ []
percent_decode (b ∷ h ∷ l ∷ s) =
    let next = percent_decode (h ∷ l ∷ s) in
    let after = percent_decode s in
    if b == b'%' then elim (hex_byte h l) [ none ↦ b ∷ next | some d ↦ d ∷ after ] else b ∷ next

hex_nibble-hex_digit : (n : ℕ) → n < 16 → hex_nibble (hex_digit n) ≡ some n
unfolding hex_nibble
hex_nibble-hex_digit n h = ground arith

hex_byte-hex_digit : (b : ℕ) → b < 256 → hex_byte (hex_digit (b / 16)) (hex_digit (b % 16)) ≡ some b
unfolding hex_byte
hex_byte-hex_digit b h =
    let high = hex_nibble-hex_digit (b / 16) (omega arith) in
    let low = hex_nibble-hex_digit (b % 16) (omega arith) in
    let whole : b / 16 * 16 + b % 16 ≡ b = omega arith in rw (high, hex_byte, low, whole) refl

percent_decode_plain :
    (b : ℕ) (s : Text) → (b == b'%') ≡ false → percent_decode (b ∷ s) ≡ b ∷ percent_decode s
unfolding percent_decode
percent_decode_plain b [] h = refl
percent_decode_plain b (c ∷ []) h = refl
percent_decode_plain b (c ∷ d ∷ s) h = rw h refl

percent_decode_escape :
    (h l d : ℕ) (s : Text)
    → hex_byte h l ≡ some d
    → percent_decode (b'%' ∷ h ∷ l ∷ s) ≡ d ∷ percent_decode s
unfolding percent_decode
percent_decode_escape h l d s e = rw e refl

-- Decoding a segment that was encoded for a link gives the segment back, whatever bytes it has.
pub percent_decode-url_encode_segment :
    (s : Text) → All (λ b. b < 256) s → percent_decode (url_encode_segment s) ≡ s
unfolding url_encode_segment percent_decode
percent_decode-url_encode_segment [] h = refl
percent_decode-url_encode_segment (b ∷ s) (small, h) =
    let rest = percent_decode-url_encode_segment s h in
    elim (Bool-cases (is_unreserved b)) [
      | inl e ↦
          rw e (percent_decode_plain b (url_encode_segment s) (ground arith) ∙ ap (◌∷◌ b) rest)
      | inr e ↦ rw e (
          percent_decode_escape (hex_digit (b / 16)) (hex_digit (b % 16)) b (url_encode_segment s)
            (hex_byte-hex_digit b small)
          ∙ ap (◌∷◌ b) rest)
    ]

-- A byte that could end the text of an element or of an attribute.
abbrev pub breaks_out : ℕ → Bool
breaks_out b = b == b'<' || b == b'>' || b == b'"' || b == 39

escape_byte-safe : (b : ℕ) → All (λ c. breaks_out c ≡ false) (escape_byte b)
escape_byte-safe b = elim (Bool-cases (b == b'&')) [
  | inl e ↦ rw e (refl, (refl, (refl, (refl, (refl, tt)))))
  | inr amp ↦ rw amp (elim (Bool-cases (b == b'<')) [
    | inl e ↦ rw e (refl, (refl, (refl, (refl, tt))))
    | inr lt ↦ rw lt (elim (Bool-cases (b == b'>')) [
      | inl e ↦ rw e (refl, (refl, (refl, (refl, tt))))
      | inr gt ↦ rw gt (elim (Bool-cases (b == b'"')) [
        | inl e ↦ rw e (refl, (refl, (refl, (refl, (refl, (refl, tt))))))
        | inr quote ↦ rw quote (elim (Bool-cases (b == 39)) [
          | inl e ↦ rw e (refl, (refl, (refl, (refl, (refl, tt)))))
          | inr apos ↦ rw apos (ground arith, tt)
        ])
      ])
    ])
  ])
]

-- No escaped text has a byte that could end an element's text or an attribute's value.
pub html_escape-safe : (s : Text) → All (λ b. breaks_out b ≡ false) (html_escape s)
unfolding html_escape
html_escape-safe [] = tt
html_escape-safe (b ∷ s) =
    All-append (λ c. breaks_out c ≡ false) (escape_byte b) (html_escape s) (escape_byte-safe b)
      (html_escape-safe s)
