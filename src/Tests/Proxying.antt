-- ===== src/Tests/Proxying.antt =====
-- A printing and a parser of addresses, and headers of both versions.
use hypershunt.Prelude.{
  ℕ, zero, suc, ◌+◌, ◌-◌, ◌*◌, ◌/◌, ◌%◌, ◌<◌, ◌≡◌, refl, true, false, Option, none, some, [], ◌∷◌,
  ◌++◌, length, ◌==◌, if◌then◌else◌, arith, ap,
}
use hypershunt.Prelude.Text.{Text, codes, contains_byte}
use hypershunt.Prelude.Result.{ok, err}
use hypershunt.Net.{v4, v6, SocketAddr, byte_values}
use hypershunt.ProxyProto.{malformed, AddressText, build_v1, build_v2, parse_v1, parse_v2}
use hypershunt.ProxyProto.Binary.{IsAddress, parse_v2-build_v2}
use hypershunt.ProxyProto.Line.{parse_v1-build_v1}

-- A number in so many letters of base 100, the last digit first.
letters : ℕ → ℕ → Text
letters zero n = []
letters (suc w) n = (100 + n % 100) ∷ letters w (n / 100)

value : Text → ℕ
value [] = 0
value (b ∷ s) = (b - 100) + 100 * value s

range : ℕ → ℕ
range zero = 1
range (suc w) = 100 * range w

value-letters : (w n : ℕ) → n < range w → value (letters w n) ≡ n
unfolding value letters range
value-letters zero n h = omega arith
value-letters (suc w) n h = omega (arith, value-letters w (n / 100) (omega arith))

contains_byte-letters : (c w n : ℕ) → c < 100 → contains_byte c (letters w n) ≡ false
unfolding contains_byte letters
contains_byte-letters c zero n h = refl
contains_byte-letters c (suc w) n h = ground (arith, contains_byte-letters c w (n / 100) h)

length-letters : (w n : ℕ) → length (letters w n) ≡ w
unfolding letters
length-letters zero n = refl
length-letters (suc w) n = ap suc (length-letters w (n / 100))

marked : ℕ → Text → Option ℕ
marked c [] = none
marked c (b ∷ s) = if b == c then some (value s) else none

address_text : AddressText
unfolding marked contains_byte range
address_text = record {
  fmt_v4 = λ a. b'.' ∷ letters 5 a;
  fmt_v6 = λ a. b':' ∷ letters 20 a;
  parse_v4 = marked b'.';
  parse_v6 = marked b':';
  parse-fmt_v4 = λ a h. ap some (value-letters 5 a (omega arith));
  parse-fmt_v6 = λ a h. ap some (value-letters 20 a (omega arith));
  parse_v4-fmt_v6 = λ a. refl;
  parse_v6-fmt_v4 = λ a. refl;
  fmt_v4-IsPlain = λ a.
      (contains_byte-letters b' ' 5 a (omega arith), contains_byte-letters 13 5 a (omega arith));
  fmt_v6-IsPlain = λ a.
      (contains_byte-letters b' ' 20 a (omega arith), contains_byte-letters 13 20 a (omega arith));
  fmt_v4_short = λ a. omega (arith, length-letters 5 a);
  fmt_v6_short = λ a. omega (arith, length-letters 20 a);
}

abbrev client : SocketAddr
client = record { ip = v4 3_232_235_777; port = 51_000 }

abbrev server : SocketAddr
server = record { ip = v4 2_130_706_433; port = 443 }

abbrev mapped_server : SocketAddr
mapped_server = record { ip = v6 1; port = 443 }

client-IsAddress : IsAddress client
unfolding byte_values
client-IsAddress = record { ip = omega arith; port = omega arith }

server-IsAddress : IsAddress server
unfolding byte_values
server-IsAddress = record { ip = omega arith; port = omega arith }

mapped_server-IsAddress : IsAddress mapped_server
unfolding byte_values
mapped_server-IsAddress = record { ip = omega arith; port = omega arith }

parse_v2-build_v2_example :
    parse_v2 (build_v2 client server ++ codes "GET") ≡ ok (some (client, server), codes "GET")
parse_v2-build_v2_example =
    parse_v2-build_v2 client server (codes "GET") client-IsAddress server-IsAddress

parse_v1-build_v1_example :
    parse_v1 address_text (λ s. true) (build_v1 address_text client server ++ codes "GET")
    ≡ ok (some (client, server), codes "GET")
parse_v1-build_v1_example =
    parse_v1-build_v1 address_text (λ s. true) client server (codes "GET") refl client-IsAddress
      server-IsAddress

-- A line for addresses of two families is refused.
mixed :
    parse_v1 address_text (λ s. true) (build_v1 address_text client mapped_server ++ codes "GET")
    ≡ err malformed
mixed =
    parse_v1-build_v1 address_text (λ s. true) client mapped_server (codes "GET") refl
      client-IsAddress mapped_server-IsAddress
