-- ===== src/Http.antt =====
-- The http crate as the source uses it: header maps and values behind an interface, and messages.
--
-- A header's name is its canonical lower-case text, a value is its bytes. `text` is
-- `HeaderValue::to_str` with its error dropped, `date` is `httpdate::parse_http_date` in seconds.
use hypershunt.Prelude.{ℕ, ◌≡◌, ◌≢◌, Bool, Option, none, some, List}
use hypershunt.Prelude.Text.{Text, codes}

-- The operations of a header map, and what its documentation says of a read after a write.
pub record HeaderMaps : Type 1 where
  pub Map : Type 0
  pub empty : Map
  pub get : Map → Text → Option Text
  pub get_all : Map → Text → List Text
  pub entries : Map → List (Text × Text)
  pub insert : Map → Text → Text → Map
  pub append : Map → Text → Text → Map
  pub remove : Map → Text → Map
  pub text : Text → Option Text
  pub valid_value : Text → Bool
  pub date : Text → Option ℕ
  pub get-insert : (m : Map) (n v : Text) → get (insert m n v) n ≡ some v
  pub get-insert_ne : (m : Map) (n k v : Text) → k ≢ n → get (insert m n v) k ≡ get m k
  pub get-remove : (m : Map) (n : Text) → get (remove m n) n ≡ none
  pub get-remove_ne : (m : Map) (n k : Text) → k ≢ n → get (remove m n) k ≡ get m k

abbrev pub age : Text
age = codes "age"

abbrev pub authorization : Text
authorization = codes "authorization"

abbrev pub cache_control : Text
cache_control = codes "cache-control"

abbrev pub content_encoding : Text
content_encoding = codes "content-encoding"

abbrev pub content_length : Text
content_length = codes "content-length"

abbrev pub date_name : Text
date_name = codes "date"

abbrev pub etag_name : Text
etag_name = codes "etag"

abbrev pub expires : Text
expires = codes "expires"

abbrev pub if_modified_since : Text
if_modified_since = codes "if-modified-since"

abbrev pub if_none_match : Text
if_none_match = codes "if-none-match"

abbrev pub last_modified_name : Text
last_modified_name = codes "last-modified"

abbrev pub set_cookie : Text
set_cookie = codes "set-cookie"

abbrev pub vary_name : Text
vary_name = codes "vary"

-- A response: `body` is what collecting its stream gives, or `none` where the read fails.
pub record Response (Map : Type 0) : Type 0 where
  pub status : ℕ
  pub headers : Map
  pub body : Option Text
