-- ===== src/Tests/Fixtures.antt =====
-- A header map and an LRU map as lists of entries.
use hypershunt.Prelude.{
  ◌≡◌, ◌≢◌, refl, Option, none, some, List, [], ◌∷◌, ◌++◌, all, leb, arith, if◌then◌else◌,
}
use hypershunt.Prelude.Text.{Text, eq_text, eq_text_iff, eq_text_refl, parse_uint, u64_values}
use hypershunt.Http.{HeaderMaps}
use hypershunt.Cache.Store.{Lru, touch, last_of, front_of}
use hypershunt.Cache.Store.Assoc.{lookup, erase, split_last}

abbrev pub Headers : Type 0
Headers = List (Text × Text)

unfoldable pub first : Headers → Text → Option Text
first [] k = none
first ((n, v) ∷ hs) k = if eq_text n k then some v else first hs k

unfoldable pub values : Headers → Text → List Text
values [] k = []
values ((n, v) ∷ hs) k = let rest = values hs k in if eq_text n k then v ∷ rest else rest

unfoldable pub drop_name : Headers → Text → Headers
drop_name [] k = []
drop_name ((n, v) ∷ hs) k = let rest = drop_name hs k in if eq_text n k then rest else (n, v) ∷ rest

pub first-drop_name : (hs : Headers) (k : Text) → first (drop_name hs k) k ≡ none
unfolding first drop_name
first-drop_name [] k = refl
first-drop_name ((n, v) ∷ hs) k = ground (arith, first-drop_name hs k)

pub first-drop_name_ne : (hs : Headers) (n k : Text) → k ≢ n → first (drop_name hs n) k ≡ first hs k
unfolding first drop_name
first-drop_name_ne [] n k h = refl
first-drop_name_ne ((m, v) ∷ hs) n k h =
    ground (arith, first-drop_name_ne hs n k h, eq_text_iff m n, eq_text_iff m k)

pub first_own : (hs : Headers) (n v : Text) → first ((n, v) ∷ drop_name hs n) n ≡ some v
unfolding first
first_own hs n v = rw (eq_text_refl n) refl

pub first_other :
    (hs : Headers) (n k v : Text) → k ≢ n → first ((n, v) ∷ drop_name hs n) k ≡ first hs k
unfolding first
first_other hs n k v h = ground (arith, first-drop_name_ne hs n k h, eq_text_iff n k)

abbrev pub header_maps : HeaderMaps
header_maps = record {
  Map = Headers;
  empty = [];
  get = first;
  get_all = values;
  entries = λ hs. hs;
  insert = λ hs n v. (n, v) ∷ drop_name hs n;
  append = λ hs n v. hs ++ (n, v) ∷ [];
  remove = drop_name;
  text = λ v. if all (λ b. leb 32 b) v then some v else none;
  valid_value = λ v. all (λ b. leb 32 b) v;
  date = parse_uint u64_values;
  get-insert = first_own;
  get-insert_ne = first_other;
  get-remove = first-drop_name;
  get-remove_ne = first-drop_name_ne;
}

abbrev pub list_lru : (V : Type 0) → Lru V
list_lru V = record {
  Map = List (Text × V);
  unbounded = [];
  entries = λ es. es;
  get = λ es k. (lookup k es, touch k (lookup k es) es);
  put = λ es k v. (lookup k es, (k, v) ∷ erase k es);
  pop = λ es k. (lookup k es, erase k es);
  pop_lru = λ es. (last_of (split_last es), front_of (split_last es));
  entries-unbounded = refl;
  get_value = λ m k. refl;
  get_entries = λ m k. refl;
  put_value = λ m k v. refl;
  put_entries = λ m k v. refl;
  pop_value = λ m k. refl;
  pop_entries = λ m k. refl;
  pop_lru_value = λ m. refl;
  pop_lru_entries = λ m. refl;
}
