-- ===== src/ProxyProto/Defs.antt =====
-- The builders and the parsers of src/proxy_proto.rs.
use hypershunt.Prelude.{
  ℕ, zero, suc, ◌-◌, ◌/◌, ◌%◌, ◌≤◌, ◌<◌, ◌≡◌, min, Bool, false, ◌&&◌, Option, none, some, List, [],
  ◌∷◌, ◌++◌, length, get_elem?, get_or, take, drop, replicate, ltb, ◌==◌, if◌then◌else◌,
}
use hypershunt.Prelude.Text.{Text, codes, eq_text, contains_byte, split_once, parse_uint}
use hypershunt.Prelude.Decimal.{to_string}
use hypershunt.Prelude.Result.{Result, ok, err, ◌>>=◌, ok_or}
use hypershunt.Net.{IpAddr, v4, v6, SocketAddr, octets, from_be}

pub data ProxyProtocolVersion : Type 0 where
  version_1 version_2 : ProxyProtocolVersion

-- The `io::Error`s of the parsers, by their messages; `unexpected_eof` is that of `read_exact`.
pub data IoError : Type 0 where
  unexpected_eof header_too_long not_utf8 missing_prefix malformed signature_mismatch : IoError
  bad_version bad_command block_too_short : IoError

-- What a header says: both addresses, each an ip and a port, or none.
abbrev pub Addresses : Type 0
Addresses = Option (SocketAddr × SocketAddr)

-- `Display` and `FromStr` of the standard library's addresses, on their numbers. The laws are their
-- documented round trip, that neither form parses as the other, and that a printed address has at most 15 and 39 bytes, no blank among them
-- and no carriage return.
abbrev pub IsPlain : Text → Type 0
IsPlain s = (contains_byte b' ' s ≡ false) × (contains_byte 13 s ≡ false)

pub record AddressText : Type 0 where
  pub fmt_v4 : ℕ → Text
  pub fmt_v6 : ℕ → Text
  pub parse_v4 : Text → Option ℕ
  pub parse_v6 : Text → Option ℕ
  pub parse-fmt_v4 : (a : ℕ) → a < 4_294_967_296 → parse_v4 (fmt_v4 a) ≡ some a
  pub parse-fmt_v6 :
      (a : ℕ)
      → a < 340_282_366_920_938_463_463_374_607_431_768_211_456
      → parse_v6 (fmt_v6 a) ≡ some a
  pub parse_v4-fmt_v6 : (a : ℕ) → parse_v4 (fmt_v6 a) ≡ none
  pub parse_v6-fmt_v4 : (a : ℕ) → parse_v6 (fmt_v4 a) ≡ none
  pub fmt_v4-IsPlain : (a : ℕ) → IsPlain (fmt_v4 a)
  pub fmt_v6-IsPlain : (a : ℕ) → IsPlain (fmt_v6 a)
  pub fmt_v4_short : (a : ℕ) → length (fmt_v4 a) ≤ 15
  pub fmt_v6_short : (a : ℕ) → length (fmt_v6 a) ≤ 39

abbrev pub crlf : Text
crlf = 13 ∷ 10 ∷ []

abbrev pub v2_signature : Text
v2_signature = 13 ∷ 10 ∷ 13 ∷ 10 ∷ 0 ∷ 13 ∷ 10 ∷ 81 ∷ 85 ∷ 73 ∷ 84 ∷ 10 ∷ []

unfoldable pub proto_name : IpAddr → Text
proto_name (v4 a) = codes "TCP4"
proto_name (v6 a) = codes "TCP6"

unfoldable pub fmt_ip : AddressText → IpAddr → Text
fmt_ip A (v4 a) = A.fmt_v4 a
fmt_ip A (v6 a) = A.fmt_v6 a

-- The text before the final line end.
unfoldable pub v1_line : AddressText → SocketAddr → SocketAddr → Text
unfolding proto_name fmt_ip
v1_line A src dst =
    codes "PROXY "
    ++ (proto_name src.ip
        ++ b' '
          ∷ (fmt_ip A src.ip
              ++ b' '
                ∷ (fmt_ip A dst.ip ++ b' ' ∷ (to_string src.port ++ b' ' ∷ to_string dst.port))))

unfoldable pub build_v1 : AddressText → SocketAddr → SocketAddr → Text
unfolding v1_line
build_v1 A src dst = v1_line A src dst ++ crlf

-- The family byte, the length of the address block and the block.
unfoldable pub v2_tail : ℕ → Text → Text
v2_tail family block = family ∷ octets 2 (length block) ++ block

unfoldable pub v2_block : ℕ → ℕ → ℕ → SocketAddr → SocketAddr → Text
v2_block width s d src dst =
    octets width s ++ (octets width d ++ (octets 2 src.port ++ octets 2 dst.port))

abbrev pub v2_addresses : IpAddr → IpAddr → SocketAddr → SocketAddr → Text
v2_addresses (v4 s) (v4 d) src dst = v2_tail 0x11 (v2_block 4 s d src dst)
v2_addresses (v6 s) (v6 d) src dst = v2_tail 0x21 (v2_block 16 s d src dst)
v2_addresses (v4 s) (v6 d) src dst = v2_tail 0x00 []
v2_addresses (v6 s) (v4 d) src dst = v2_tail 0x00 []

unfoldable pub build_v2 : SocketAddr → SocketAddr → Text
unfolding v2_tail v2_block
build_v2 src dst = v2_signature ++ 0x21 ∷ v2_addresses src.ip dst.ip src dst

unfoldable pub build_header : AddressText → ProxyProtocolVersion → SocketAddr → SocketAddr → Text
build_header A version_1 src dst = build_v1 A src dst
build_header A version_2 src dst = build_v2 src dst

unfoldable pub build_v1_unknown : Text
build_v1_unknown = codes "PROXY UNKNOWN" ++ crlf

unfoldable pub build_v2_unspec : Text
unfolding v2_tail
build_v2_unspec = v2_signature ++ 0x21 ∷ v2_tail 0x00 []

-- A slot of 108 bytes: at most 107 of the path, and zeros.
unfoldable pub path_slot : Option Text → Text
path_slot none = replicate 108 0
path_slot (some raw) = take 107 raw ++ replicate (108 - min (length raw) 107) 0

unfoldable pub build_v2_unix : Option Text → Option Text → Text
unfolding path_slot
build_v2_unix src dst =
    v2_signature ++ 0x21 ∷ 0x31 ∷ octets 2 216 ++ (path_slot src ++ path_slot dst)

-- `read_exact` into a buffer of `n` bytes.
unfoldable pub read_exact : ℕ → Text → Result IoError (Text × Text)
read_exact n s = if ltb (length s) n then err unexpected_eof else ok (take n s, drop n s)

-- The reading loop of `parse_v1`, with the room left in the buffer and whether the last byte was a
-- carriage return: the bytes that it reads, and the rest.
unfoldable pub read_line : ℕ → Bool → Text → Result IoError (Text × Text)
read_line zero after_cr s = err header_too_long
read_line (suc room) after_cr [] = err unexpected_eof
read_line (suc room) after_cr (b ∷ s) =
    let rest = read_line room (b == 13) s >>= λ p. ok (b ∷ p.0, p.1) in
    if after_cr && b == 10 then ok (b ∷ [], s) else rest

-- `splitn(n, c)`.
unfoldable pub splitn : ℕ → ℕ → Text → List Text
splitn zero c s = []
splitn (suc zero) c s = s ∷ []
splitn (suc (suc n)) c s = elim (split_once c s) [
  | none ↦ s ∷ []
  | some (l, r) ↦ l ∷ splitn (suc n) c r
]

abbrev pub part : List Text → ℕ → Result IoError Text
part parts i = ok_or (get_elem? parts i) malformed

abbrev pub port_of : Text → Result IoError ℕ
port_of s = ok_or (parse_uint 65_536 s) malformed

-- The last match of `parse_v1`.
unfoldable pub v1_addresses : AddressText → Text → Text → Text → ℕ → ℕ → Result IoError Addresses
v1_addresses A proto src_ip dst_ip src_port dst_port =
    if eq_text proto (codes "TCP4")
    then (ok_or (A.parse_v4 src_ip) malformed >>= λ s. ok_or (A.parse_v4 dst_ip) malformed >>= λ d.
        ok (some (record { ip = v4 s; port = src_port }, record { ip = v4 d; port = dst_port })))
    else if eq_text proto (codes "TCP6")
    then (ok_or (A.parse_v6 src_ip) malformed >>= λ s. ok_or (A.parse_v6 dst_ip) malformed >>= λ d.
        ok (some (record { ip = v6 s; port = src_port }, record { ip = v6 d; port = dst_port })))
    else err malformed

unfoldable pub v1_ports : AddressText → List Text → Text → Result IoError Addresses
unfolding v1_addresses
v1_ports A parts proto = do
  src_ip ← part parts 2
  dst_ip ← part parts 3
  sport ← part parts 4
  src_port ← port_of sport
  dport ← part parts 5
  dst_port ← port_of dport
  v1_addresses A proto src_ip dst_ip src_port dst_port

-- `parse_v1` from the split line on.
unfoldable pub v1_parts : AddressText → List Text → Result IoError Addresses
unfolding v1_ports
v1_parts A parts =
    if eq_text (get_or parts 0 []) (codes "PROXY")
    then (if eq_text (get_or parts 1 []) (codes "UNKNOWN")
        then ok none
        else v1_ports A parts (get_or parts 1 []))
    else err missing_prefix

-- `valid_utf8` is `str::from_utf8(..).is_ok()`.
unfoldable pub parse_v1 : AddressText → (Text → Bool) → Text → Result IoError (Addresses × Text)
unfolding v1_parts read_line splitn
parse_v1 A valid_utf8 stream = read_line 108 false stream >>= λ p.
    let line = take (length (p.0) - 2) (p.0) in
    if valid_utf8 line then (v1_parts A (splitn 6 b' ' line) >>= λ a. ok (a, p.1)) else err not_utf8

-- An address of `width` bytes at an offset of the block, with its port.
abbrev pub block_number : Text → ℕ → ℕ → ℕ
block_number block at width = from_be 0 (take width (drop at block))

-- The last match of `parse_v2`.
unfoldable pub v2_family : ℕ → Text → Result IoError Addresses
v2_family family block =
    if family == 1
    then (if ltb (length block) 12
        then err block_too_short
        else ok (
            some (
              record { ip = v4 (block_number block 0 4); port = block_number block 8 2 },
              record { ip = v4 (block_number block 4 4); port = block_number block 10 2 },
            )))
    else if family == 2
    then (if ltb (length block) 36
        then err block_too_short
        else ok (
            some (
              record { ip = v6 (block_number block 0 16); port = block_number block 32 2 },
              record { ip = v6 (block_number block 16 16); port = block_number block 34 2 },
            )))
    else ok none

-- The tests on the command, once the block is read.
unfoldable pub v2_command : ℕ → ℕ → Text → Result IoError Addresses
unfolding v2_family
v2_command cmd family block =
    if cmd == 0 then ok none else if cmd == 1 then v2_family family block else err bad_command

unfoldable pub parse_v2 : Text → Result IoError (Addresses × Text)
unfolding read_exact v2_command
parse_v2 stream = read_exact 16 stream >>= λ p.
    let fixed = p.0 in
    if eq_text (take 12 fixed) v2_signature
    then (if get_or fixed 12 0 / 16 == 2
        then (read_exact (from_be 0 (drop 14 fixed)) (p.1) >>= λ q.
            v2_command (get_or fixed 12 0 % 16) (get_or fixed 13 0 / 16) (q.0) >>= λ a. ok (a, q.1))
        else err bad_version)
    else err signature_mismatch

unfoldable pub parse_incoming :
    AddressText → (Text → Bool) → ProxyProtocolVersion → Text → Result IoError (Addresses × Text)
unfolding parse_v1 parse_v2
parse_incoming A valid_utf8 version_1 stream = parse_v1 A valid_utf8 stream
parse_incoming A valid_utf8 version_2 stream = parse_v2 stream
