-- ===== src/Files/Join.antt =====
-- `safe_join` of src/handler/static_files.rs.
use hypershunt.Prelude.{
  ℕ, ◌≡◌, refl, Bool, false, ◌==◌, Option, none, some, [], ◌∷◌, if◌then◌else◌, arith, Bool-cases,
  inl, inr,
}
use hypershunt.Prelude.Text.{Text, codes, contains_text, contains_byte, split, trim_start_matches}
use hypershunt.Files.Escape.{percent_decode}

-- `lossy` is `String::from_utf8_lossy`, `join` is `Path::join`.
module _ {FilePath : Type 0} (lossy : Text → Text) (join : FilePath → Text → FilePath) where
  unfoldable pub safe_join : FilePath → Text → Option FilePath
  unfolding percent_decode
  safe_join root uri_path =
      let decoded = lossy (percent_decode uri_path) in
      if contains_byte 0 uri_path
      then none
      else if contains_text (split b'/' decoded) (codes "..")
      then none
      else some (join root (trim_start_matches b'/' decoded))

-- A relative path that stays below the directory it is joined to: it does not begin with a slash, and
-- none of its segments leads up.
abbrev begins_with : ℕ → Text → Bool
begins_with c [] = false
begins_with c (b ∷ s) = b == c

pub record IsConfined (p : Text) : Type 0 where
  pub relative : begins_with b'/' p ≡ false
  pub level : contains_text (split b'/' p) (codes "..") ≡ false

trim_start_matches-begins_with : (c : ℕ) (s : Text) → begins_with c (trim_start_matches c s) ≡ false
unfolding trim_start_matches
trim_start_matches-begins_with c [] = refl
trim_start_matches-begins_with c (b ∷ s) = elim (Bool-cases (b == c)) [
  | inl e ↦ rw e (trim_start_matches-begins_with c s)
  | inr e ↦ rw e e
]

contains_text-trim :
    (c : ℕ) (s name : Text)
    → contains_text (split c s) name ≡ false
    → contains_text (split c (trim_start_matches c s)) name ≡ false
unfolding split trim_start_matches contains_text
contains_text-trim c [] name h = h
contains_text-trim c (b ∷ s) name h = elim (Bool-cases (b == c)) [
  | inl e ↦ rw e (contains_text-trim c s name (ground arith))
  | inr e ↦ rw (e, trim_start_matches) h
]

module _ {FilePath : Type 0} (lossy : Text → Text) (join : FilePath → Text → FilePath) where
  -- A path that is joined stays below the root: what is joined to it does not begin with a slash and
  -- has no `..` segment, also where those were percent-encoded.
  pub safe_join-IsConfined :
      (root r : FilePath) (uri_path : Text)
      → safe_join lossy join root uri_path ≡ some r
      → (p : Text) × (r ≡ join root p) × IsConfined p
  unfolding safe_join
  safe_join-IsConfined root r uri_path h =
      let decoded = lossy (percent_decode uri_path) in
      (
        trim_start_matches b'/' decoded,
        ground arith,
        record {
          relative = trim_start_matches-begins_with b'/' decoded;
          level = contains_text-trim b'/' decoded (codes "..") (ground arith);
        },
      )
