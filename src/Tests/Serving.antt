-- ===== src/Tests/Serving.antt =====
-- src/handler/static_files.rs on short paths, ranges and names.
use hypershunt.Prelude.{◌≤◌, ◌<◌, ◌≡◌, refl, none, some, [], ◌∷◌, ◌++◌, arith, All}
use hypershunt.Prelude.Result.{ok}
use hypershunt.Prelude.Text.{
  Text, codes, eq_text, contains_text, contains_byte, split, split_once, strip_prefix,
  trim_start_matches, parse_uint, parse_digits,
}
use hypershunt.Files.Range.{parse_range, suffix_range, plain_range, check_range, parse_range-within}
use hypershunt.Files.Escape.{
  url_encode_segment, percent_decode, hex_byte, hex_nibble, percent_decode-url_encode_segment,
}
use hypershunt.Files.Join.{safe_join, IsConfined, safe_join-IsConfined}

abbrev lossy : Text → Text
lossy s = s

abbrev join : Text → Text → Text
join root s = root ++ b'/' ∷ s

joined : safe_join lossy join (codes "srv") (codes "/a%2Fb") ≡ some (codes "srv/a/b")
unfolding safe_join percent_decode hex_byte hex_nibble contains_byte contains_text split eq_text
    trim_start_matches
joined = refl

-- A traversal is refused also when it is encoded.
refused : safe_join lossy join (codes "srv") (codes "/%2e%2e/x") ≡ none
unfolding safe_join percent_decode hex_byte hex_nibble contains_byte contains_text split eq_text
    trim_start_matches
refused = refl

-- A null byte that is encoded passes.
null_passes : safe_join lossy join (codes "srv") (codes "a%00") ≡ some (codes "srv/a" ++ 0 ∷ [])
unfolding safe_join percent_decode hex_byte hex_nibble contains_byte contains_text split eq_text
    trim_start_matches
null_passes = refl

safe_join-IsConfined_example : (p : Text) × (codes "srv/a/b" ≡ join (codes "srv") p) × IsConfined p
safe_join-IsConfined_example =
    safe_join-IsConfined lossy join (codes "srv") (codes "srv/a/b") (codes "/a%2Fb") joined

last_three : parse_range 10 (codes "bytes=-3") ≡ some (ok (7, 9))
unfolding parse_range suffix_range plain_range check_range strip_prefix contains_byte split_once
    parse_uint parse_digits
last_three = refl

-- A range that cannot be parsed is passed over: the whole file is sent.
malformed : parse_range 10 (codes "bytes=x-3") ≡ none
unfolding parse_range suffix_range plain_range check_range strip_prefix contains_byte split_once
    parse_uint parse_digits
malformed = refl

parse_range-within_example : (7 ≤ 9) × (9 < 10)
parse_range-within_example = parse_range-within 10 (codes "bytes=-3") 7 9 last_three

name_small : All (λ b. b < 256) (codes "a %")
name_small = (omega arith, (omega arith, (omega arith, tt)))

percent_decode-url_encode_segment_example :
    percent_decode (url_encode_segment (codes "a %")) ≡ codes "a %"
percent_decode-url_encode_segment_example =
    percent_decode-url_encode_segment (codes "a %") name_small
