-- ===== src/Router/Defs.antt =====
-- `strip_port`, `resolve_vhost`, `pick_location`, `apply_rewrite` and `route` of src/router.rs.
use hypershunt.Prelude.{
  ℕ, zero, suc, Bool, true, false, ◌&&◌, ◌||◌, Option, none, some, List, [], ◌∷◌, ◌++◌, length,
  is_empty, ltb, leb, ◌==◌, if◌then◌else◌,
}
use hypershunt.Prelude.Text.{Text, codes, split_once, strip_prefix}
use hypershunt.Headers.{find_name}

-- `host.split(':').next()`, with the bracket of an IPv6 address kept.
unfoldable pub strip_port : Text → Text
unfolding split_once
strip_port [] = []
strip_port (c ∷ host) =
    let name : Text = elim (split_once b':' (c ∷ host)) [ some (l, r) ↦ l | none ↦ c ∷ host ] in
    if c == b'['
    then (elim (split_once b']' host) [ some (l, r) ↦ c ∷ (l ++ b']' ∷ []) | none ↦ name ])
    else name

-- The regex crate and the http crate's `Uri`: `with_path_and_query` parses the text and puts it in
-- the uri, whose scheme and authority stay, and fails where the text or the uri is invalid.
pub record UriOps (Uri Regex : Type 0) : Type 0 where
  pub uri_path : Uri → Text
  pub with_path_and_query : Uri → Text → Option Uri
  pub is_match : Regex → Text → Bool
  pub replace : Regex → Text → Text → Text

-- The request: its `Host` header, its uri, and what no rewrite changes.
pub record Request (Uri Rest : Type 0) : Type 0 where
  pub host : Option Text
  pub uri : Uri
  pub rest : Rest

pub record Rewrite (Regex : Type 0) : Type 0 where
  pub from : Regex
  pub to : Text

-- `handler` stands for all that a route takes over from its location. A matcher is its test.
pub record Location (Uri Regex Rest Handler : Type 0) : Type 0 where
  pub path : Text
  pub handler : Handler
  pub matcher : Option (Request Uri Rest → Bool)
  pub rewrite : Option (Rewrite Regex)

-- `path.starts_with(prefix)`.
unfoldable pub starts_with : Text → Text → Bool
unfolding strip_prefix
starts_with path prefix = elim (strip_prefix prefix path) [ some r ↦ true | none ↦ false ]

-- The path and query that the replaced text stands for: an empty path becomes `/`.
unfoldable pub rewritten : Text → Text
unfolding split_once
rewritten replaced = elim (split_once b'?' replaced) [
  | some (p, q) ↦ (if is_empty p then codes "/" else p) ++ b'?' ∷ q
  | none ↦ if is_empty replaced then codes "/" else replaced
]

module _ {Uri Regex Rest Handler : Type 0} where
  -- `enumerate().filter(..)`.
  unfoldable pub candidates :
      Text → ℕ → List (Location Uri Regex Rest Handler) → List (ℕ × Location Uri Regex Rest Handler)
  unfolding starts_with
  candidates path i [] = []
  candidates path i (loc ∷ locs) =
      let rest = candidates path (suc i) locs in
      if starts_with path loc.path then (i, loc) ∷ rest else rest

  -- The comparison of the sort: the longer path first, then the earlier location.
  unfoldable pub precedes :
      ℕ × Location Uri Regex Rest Handler → ℕ × Location Uri Regex Rest Handler → Bool
  precedes a b =
      ltb (length (b.1).path) (length (a.1).path)
      || (length (a.1).path == length (b.1).path && leb (a.0) (b.0))

  unfoldable pub insert_sorted :
      ℕ × Location Uri Regex Rest Handler
      → List (ℕ × Location Uri Regex Rest Handler)
      → List (ℕ × Location Uri Regex Rest Handler)
  unfolding precedes
  insert_sorted a [] = a ∷ []
  insert_sorted a (b ∷ bs) = if precedes a b then a ∷ b ∷ bs else b ∷ insert_sorted a bs

  -- `sort_by`.
  unfoldable pub sort_candidates :
      List (ℕ × Location Uri Regex Rest Handler) → List (ℕ × Location Uri Regex Rest Handler)
  unfolding insert_sorted
  sort_candidates [] = []
  sort_candidates (a ∷ rest) = insert_sorted a (sort_candidates rest)

  unfoldable pub accepts : Request Uri Rest → Location Uri Regex Rest Handler → Bool
  accepts req loc = elim loc.matcher [ some m ↦ m req | none ↦ true ]

  unfoldable pub first_accepting :
      Request Uri Rest
      → List (ℕ × Location Uri Regex Rest Handler)
      → Option (Location Uri Regex Rest Handler)
  unfolding accepts
  first_accepting req [] = none
  first_accepting req ((i, loc) ∷ rest) =
      if accepts req loc then some loc else first_accepting req rest

module _ {Uri Regex Rest : Type 0} (U : UriOps Uri Regex) where
  -- `some` is the request with its new uri where the source answers `true`.
  unfoldable pub apply_rewrite : Request Uri Rest → Rewrite Regex → Option (Request Uri Rest)
  unfolding rewritten
  apply_rewrite req r =
      if U.is_match r.from (U.uri_path req.uri)
      then (elim (U.with_path_and_query req.uri
          (rewritten (U.replace r.from (U.uri_path req.uri) r.to))) [
            | some uri ↦ some (record req { uri = uri })
            | none ↦ none
          ])
      else none

module _ {Uri Regex Rest Handler : Type 0} (U : UriOps Uri Regex) where
  unfoldable pub pick_location :
      List (Location Uri Regex Rest Handler)
      → Request Uri Rest
      → Option (Location Uri Regex Rest Handler)
  unfolding first_accepting sort_candidates candidates
  pick_location locs req =
      first_accepting req (sort_candidates (candidates (U.uri_path req.uri) 0 locs))

  -- The request after the rewrite that the location makes, if it makes one.
  unfoldable pub rewritten_by :
      Location Uri Regex Rest Handler → Request Uri Rest → Option (Request Uri Rest)
  unfolding apply_rewrite
  rewritten_by loc req = elim loc.rewrite [ some r ↦ apply_rewrite U req r | none ↦ none ]

  -- The rewrite loop, with the iterations that are left: the final location and the request that its
  -- handler gets.
  unfoldable pub route_loop :
      ℕ
      → List (Location Uri Regex Rest Handler)
      → Request Uri Rest
      → Option (Location Uri Regex Rest Handler × Request Uri Rest)
  unfolding pick_location rewritten_by
  route_loop zero locs req = none
  route_loop (suc n) locs req = elim (pick_location locs req) [
    | none ↦ none
    | some loc ↦ elim (rewritten_by loc req) [
      | none ↦ some (loc, req)
      | some next ↦ route_loop n locs next
    ]
  ]

abbrev pub max_rewrites : ℕ
max_rewrites = 10

pub record VHost (Uri Regex Rest Handler : Type 0) : Type 0 where
  pub name : Text
  pub locations : List (Location Uri Regex Rest Handler)

-- The maps are lists of their entries. A pattern is anchored when it is compiled.
pub record VhostTable (Uri Regex Rest Handler : Type 0) : Type 0 where
  pub literals : List (Text × VHost Uri Regex Rest Handler)
  pub patterns : List (Regex × VHost Uri Regex Rest Handler)
  pub fallback : Option (VHost Uri Regex Rest Handler)

module _ {Uri Regex Rest Handler : Type 0} (U : UriOps Uri Regex) where
  unfoldable pub first_pattern :
      Text → List (Regex × VHost Uri Regex Rest Handler) → Option (VHost Uri Regex Rest Handler)
  first_pattern host [] = none
  first_pattern host ((re, vhost) ∷ rest) =
      if U.is_match re host then some vhost else first_pattern host rest

  -- The listener's own table; a router with one table serves it under any key.
  unfoldable pub table_of :
      List (Text × VhostTable Uri Regex Rest Handler)
      → Text
      → Option (VhostTable Uri Regex Rest Handler)
  unfolding find_name
  table_of tables bind = elim (find_name bind tables) [
    | some table ↦ some table
    | none ↦ elim tables [
      | [] ↦ none
      | (b, only) ∷ rest ↦ if is_empty rest then some only else none
    ]
  ]

  unfoldable pub resolve_in :
      VhostTable Uri Regex Rest Handler → Option Text → Option (VHost Uri Regex Rest Handler)
  unfolding first_pattern find_name
  resolve_in table none = table.fallback
  resolve_in table (some host) = elim (find_name host table.literals) [
    | some vhost ↦ some vhost
    | none ↦ elim (first_pattern host table.patterns) [
      | some vhost ↦ some vhost
      | none ↦ table.fallback
    ]
  ]

  unfoldable pub resolve_vhost :
      List (Text × VhostTable Uri Regex Rest Handler)
      → Option Text
      → Text
      → Option (VHost Uri Regex Rest Handler)
  unfolding table_of resolve_in
  resolve_vhost tables host bind = elim (table_of tables bind) [
    | some table ↦ resolve_in table host
    | none ↦ none
  ]

  -- The host, the location that answers, and the request that its handler gets.
  unfoldable pub route :
      List (Text × VhostTable Uri Regex Rest Handler)
      → Request Uri Rest
      → Text
      → Option (VHost Uri Regex Rest Handler × Location Uri Regex Rest Handler × Request Uri Rest)
  unfolding resolve_vhost route_loop strip_port
  route tables req bind =
      let host : Option Text = elim req.host [ some h ↦ some (strip_port h) | none ↦ none ] in
      elim (resolve_vhost tables host bind) [
        | none ↦ none
        | some vhost ↦ elim (route_loop U max_rewrites vhost.locations req) [
          | some (loc, last) ↦ some (vhost, loc, last)
          | none ↦ none
        ]
      ]
