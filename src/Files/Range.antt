-- ===== src/Files/Range.antt =====
-- `parse_range_header` and `is_not_modified` of src/handler/static_files.rs.
use hypershunt.Prelude.{
  ℕ, ◌-◌, ◌≤◌, ◌<◌, ◌≡◌, Bool, false, ◌||◌, Option, none, some, [], ◌∷◌, ltb, leb, ◌==◌,
  if◌then◌else◌, arith, Option-cases, inl, inr,
}
use hypershunt.Prelude.Result.{Result, ok, err}
use hypershunt.Prelude.Text.{
  Text, codes, eq_text, strip_prefix, contains_byte, split_once, parse_uint, u64_values,
}
use hypershunt.Http.{HeaderMaps, if_none_match}
use hypershunt.Cache.Entry.{◌>>=◌, get_text}

-- The header's verdict: none to send the whole file, an error for 416, or the first and last byte.
abbrev pub RangeVerdict : Type 0
RangeVerdict = Option (Result (Unit {0}) (ℕ × ℕ))

abbrev pub last_byte : ℕ → Text → Option (Result (Unit {0}) ℕ)
last_byte file_len [] = if file_len == 0 then some (err tt) else some (ok (file_len - 1))
last_byte file_len (b ∷ s) = parse_uint u64_values (b ∷ s) >>= λ n. some (ok n)

-- The last test: the range lies in the file.
unfoldable pub check_range : ℕ → ℕ → ℕ → RangeVerdict
check_range file_len start end =
    if ltb end start || leb file_len end then some (err tt) else some (ok (start, end))

-- `bytes=-N`.
unfoldable pub suffix_range : ℕ → Text → RangeVerdict
suffix_range file_len suffix = parse_uint u64_values suffix >>= λ n.
    if n == 0 || file_len == 0
    then some (err tt)
    else check_range file_len (file_len - n) (file_len - 1)

-- `bytes=N-` and `bytes=N-M`: what stands before and after the first `-`.
unfoldable pub plain_range : ℕ → Text → RangeVerdict
plain_range file_len bytes = elim (split_once b'-' bytes) [
  | none ↦ none
  | some (first, rest) ↦ parse_uint u64_values first >>= λ start. last_byte file_len rest >>= λ end.
      elim end [ err e ↦ some (err e) | ok n ↦ check_range file_len start n ]
]

unfoldable pub parse_range : ℕ → Text → RangeVerdict
unfolding suffix_range plain_range check_range
parse_range file_len value = strip_prefix (codes "bytes=") value >>= λ bytes.
    if contains_byte b',' bytes then none else elim (strip_prefix (codes "-") bytes) [
      | some suffix ↦ suffix_range file_len suffix
      | none ↦ plain_range file_len bytes
    ]

module _ (H : HeaderMaps) where
  unfoldable pub parse_range_header : H.Map → ℕ → RangeVerdict
  unfolding parse_range
  parse_range_header headers file_len = get_text H headers (codes "range") >>= parse_range file_len

  unfoldable pub is_not_modified : H.Map → Text → Bool
  is_not_modified headers etag = elim (get_text H headers if_none_match) [
    | none ↦ false
    | some v ↦ eq_text v etag
  ]

check_range-within :
    (file_len start end a b : ℕ)
    → check_range file_len start end ≡ some (ok (a, b))
    → (a ≤ b) × (b < file_len)
unfolding check_range
check_range-within file_len start end a b h = (ground arith, ground arith)

suffix_range-within :
    (file_len : ℕ) (s : Text) (a b : ℕ)
    → suffix_range file_len s ≡ some (ok (a, b))
    → (a ≤ b) × (b < file_len)
unfolding suffix_range
suffix_range-within file_len s a b h = elim (Option-cases (parse_uint u64_values s)) [
  | inl e ↦ absurd (ground arith)
  | inr (n, e) ↦ check_range-within file_len (file_len - n) (file_len - 1) a b (ground arith)
]

plain_range-within :
    (file_len : ℕ) (s : Text) (a b : ℕ)
    → plain_range file_len s ≡ some (ok (a, b))
    → (a ≤ b) × (b < file_len)
unfolding plain_range
plain_range-within file_len s a b h = elim (Option-cases (split_once b'-' s)) [
  | inl e ↦ absurd (ground arith)
  | inr ((first, rest), e) ↦ elim (Option-cases (parse_uint u64_values first)) [
    | inl f ↦ absurd (ground arith)
    | inr (start, f) ↦ elim (Option-cases (last_byte file_len rest)) [
      | inl g ↦ absurd (ground arith)
      | inr (err u, g) ↦ absurd (ground arith)
      | inr (ok n, g) ↦ check_range-within file_len start n a b (ground arith)
    ]
  ]
]

-- A range that is accepted is not empty and lies within the file.
pub parse_range-within :
    (file_len : ℕ) (value : Text) (a b : ℕ)
    → parse_range file_len value ≡ some (ok (a, b))
    → (a ≤ b) × (b < file_len)
unfolding parse_range
parse_range-within file_len value a b h =
    elim (Option-cases (strip_prefix (codes "bytes=") value)) [
      | inl e ↦ absurd (ground arith)
      | inr (bytes, e) ↦ elim (Option-cases (strip_prefix (codes "-") bytes)) [
        | inl f ↦ plain_range-within file_len bytes a b (ground arith)
        | inr (suffix, f) ↦ suffix_range-within file_len suffix a b (ground arith)
      ]
    ]
