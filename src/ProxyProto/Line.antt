-- ===== src/ProxyProto/Line.antt =====
-- Version 1 of the PROXY protocol: the line that is built fits the parser's buffer and is parsed back.
use hypershunt.Prelude.{
  ℕ, zero, suc, ◌+◌, ◌-◌, ◌≤◌, ◌<◌, ◌≡◌, refl, ap, ◌∙◌, Bool, true, false, ◌||◌, some, List, [],
  ◌∷◌, ◌++◌, length, take, length-append, ◌==◌, arith,
}
use mathlib.Core.List.{append_assoc}
use hypershunt.Prelude.Text.{Text, codes, eq_text, contains_byte, split_once-append}
use hypershunt.Prelude.Decimal.{
  to_string, tens, to_string-IsDigits, contains_byte-IsDigits, length-to_string,
  parse_uint-to_string,
}
use hypershunt.Prelude.Result.{Result, ok, err, ◌>>=◌}
use hypershunt.Net.{IpAddr, v4, v6, SocketAddr, byte_values}
use hypershunt.ProxyProto.Defs.{
  Addresses, IoError, malformed, AddressText, IsPlain, crlf, proto_name, fmt_ip, v1_line, build_v1,
  read_line, splitn, v1_addresses, v1_ports, v1_parts, parse_v1, port_of,
}
use hypershunt.ProxyProto.Binary.{IsIp, IsAddress}

contains_byte-append :
    (c : ℕ) (s t : Text) → contains_byte c (s ++ t) ≡ (contains_byte c s || contains_byte c t)
unfolding contains_byte
contains_byte-append c [] t = refl
contains_byte-append c (b ∷ s) t = ground (arith, contains_byte-append c s t)

-- A line without a carriage return is read up to its end, and no further.
read_line-crlf :
    (room : ℕ) (l rest : Text)
    → length l + 2 ≤ room
    → contains_byte 13 l ≡ false
    → read_line room false (l ++ 13 ∷ 10 ∷ rest) ≡ ok (l ++ crlf, rest)
unfolding read_line contains_byte
read_line-crlf zero l rest h k = absurd (omega arith)
read_line-crlf (suc zero) [] rest h k = absurd (omega arith)
read_line-crlf (suc (suc room)) [] rest h k = refl
read_line-crlf (suc room) (b ∷ l) rest h k =
    let plain : (b == 13) ≡ false = ground arith in
    rw (plain, read_line-crlf room l rest (omega arith) (ground arith)) refl

splitn-append :
    (n : ℕ) (l r : Text)
    → contains_byte b' ' l ≡ false
    → splitn (suc (suc n)) b' ' (l ++ b' ' ∷ r) ≡ l ∷ splitn (suc n) b' ' r
unfolding splitn
splitn-append n l r h = rw (split_once-append b' ' l r h, splitn) refl

take-append_crlf : (l : Text) → take (length (l ++ crlf) - 2) (l ++ crlf) ≡ l
take-append_crlf l =
    let size : length (l ++ crlf) - 2 ≡ length l = omega (arith, length-append l crlf) in
    rw size (take-append l crlf)
  where
    take-append : (xs ys : Text) → take (length xs) (xs ++ ys) ≡ xs
    take-append [] ys = refl
    take-append (x ∷ xs) ys = ap (◌∷◌ x) (take-append xs ys)

to_string-IsPlain : (n : ℕ) → IsPlain (to_string n)
to_string-IsPlain n = (
  contains_byte-IsDigits b' ' (to_string n) refl (to_string-IsDigits n),
  contains_byte-IsDigits 13 (to_string n) refl (to_string-IsDigits n),
)

-- What a line of version 1 says: both addresses, or nothing that can be parsed if they are of
-- different families.
abbrev pub v1_meaning : IpAddr → IpAddr → SocketAddr → SocketAddr → Result IoError Addresses
v1_meaning (v4 s) (v4 d) src dst = ok (some (src, dst))
v1_meaning (v6 s) (v6 d) src dst = ok (some (src, dst))
v1_meaning (v4 s) (v6 d) src dst = err malformed
v1_meaning (v6 s) (v4 d) src dst = err malformed

proto_name-known : (ip : IpAddr) → eq_text (proto_name ip) (codes "UNKNOWN") ≡ false
unfolding proto_name eq_text
proto_name-known (v4 a) = refl
proto_name-known (v6 a) = refl

module _ (A : AddressText) where
  fmt_ip-IsPlain : (ip : IpAddr) → IsPlain (fmt_ip A ip) × (length (fmt_ip A ip) ≤ 39)
  unfolding fmt_ip
  fmt_ip-IsPlain (v4 a) = (A.fmt_v4-IsPlain a, omega (arith, A.fmt_v4_short a))
  fmt_ip-IsPlain (v6 a) = (A.fmt_v6-IsPlain a, A.fmt_v6_short a)

  proto_name-IsPlain : (ip : IpAddr) → IsPlain (proto_name ip) × (length (proto_name ip) ≡ 4)
  unfolding proto_name contains_byte
  proto_name-IsPlain (v4 a) = ((refl, refl), refl)
  proto_name-IsPlain (v6 a) = ((refl, refl), refl)

  pieces : SocketAddr → SocketAddr → List Text
  pieces src dst =
      codes "PROXY"
      ∷ proto_name src.ip
      ∷ fmt_ip A src.ip
      ∷ fmt_ip A dst.ip
      ∷ to_string src.port
      ∷ to_string dst.port
      ∷ []

  splitn-v1_line : (src dst : SocketAddr) → splitn 6 b' ' (v1_line A src dst) ≡ pieces src dst
  unfolding v1_line pieces contains_byte
  splitn-v1_line src dst =
      let S = fmt_ip A src.ip in
      let D = fmt_ip A dst.ip in
      let P = to_string src.port in
      let Q = to_string dst.port in
      let from_p = P ++ b' ' ∷ Q in
      let from_d = D ++ b' ' ∷ from_p in
      let from_s = S ++ b' ' ∷ from_d in
      splitn-append 4 (codes "PROXY") (proto_name src.ip ++ b' ' ∷ from_s) refl
      ∙ ap (◌∷◌ (codes "PROXY")) (
          splitn-append 3 (proto_name src.ip) from_s ((proto_name-IsPlain src.ip).0.0)
          ∙ ap (◌∷◌ (proto_name src.ip)) (
              splitn-append 2 S from_d ((fmt_ip-IsPlain src.ip).0.0)
              ∙ ap (◌∷◌ S) (
                  splitn-append 1 D from_p ((fmt_ip-IsPlain dst.ip).0.0)
                  ∙ ap (◌∷◌ D) (
                      splitn-append 0 P Q ((to_string-IsPlain src.port).0)
                      ∙ unfold splitn in refl))))

  -- The line has no carriage return and leaves room for the line end in a buffer of 108 bytes.
  v1_line-plain :
      (src dst : SocketAddr)
      → src.port < 65_536
      → dst.port < 65_536
      → (contains_byte 13 (v1_line A src dst) ≡ false) × (length (v1_line A src dst) ≤ 102)
  unfolding v1_line contains_byte tens
  v1_line-plain src dst hp hq =
      let N = proto_name src.ip in
      let S = fmt_ip A src.ip in
      let D = fmt_ip A dst.ip in
      let P = to_string src.port in
      let Q = to_string dst.port in
      let (n, ln) = proto_name-IsPlain src.ip in
      let (s, ls) = fmt_ip-IsPlain src.ip in
      let (d, ld) = fmt_ip-IsPlain dst.ip in
      let p = to_string-IsPlain src.port in
      let q = to_string-IsPlain dst.port in
      let lp = length-to_string 4 src.port (omega arith) in
      let lq = length-to_string 4 dst.port (omega arith) in
      let from_p = P ++ b' ' ∷ Q in
      let from_d = D ++ b' ' ∷ from_p in
      let from_s = S ++ b' ' ∷ from_d in
      (
        rw
            (
              contains_byte-append 13 N (b' ' ∷ from_s),
              n.1,
              contains_byte-append 13 S (b' ' ∷ from_d),
              s.1,
              contains_byte-append 13 D (b' ' ∷ from_p),
              d.1,
              contains_byte-append 13 P (b' ' ∷ Q),
              p.1,
            )
            (q.1),
        omega (
          arith,
          ln,
          ls,
          ld,
          lp,
          lq,
          length-append N (b' ' ∷ from_s),
          length-append S (b' ' ∷ from_d),
          length-append D (b' ' ∷ from_p),
          length-append P (b' ' ∷ Q),
        ),
      )

  port_of-to_string : (p : ℕ) → p < 65_536 → port_of (to_string p) ≡ ok p
  port_of-to_string p h = rw (parse_uint-to_string 65_536 p h) refl

  -- The ports are read back, and the addresses are left to the last match.
  v1_parts-pieces :
      (src dst : SocketAddr)
      → src.port < 65_536
      → dst.port < 65_536
      → v1_parts A (pieces src dst)
        ≡ v1_addresses A (proto_name src.ip) (fmt_ip A src.ip) (fmt_ip A dst.ip) src.port dst.port
  unfolding v1_parts v1_ports pieces eq_text
  v1_parts-pieces src dst hp hq =
      let known : eq_text (proto_name src.ip) (codes "UNKNOWN") ≡ false = proto_name-known src.ip in
      rw (known, port_of-to_string src.port hp, port_of-to_string dst.port hq) refl

  v1_addresses-v1_meaning :
      (si di : IpAddr) (p q : ℕ)
      → IsIp si
      → IsIp di
      → v1_addresses A (proto_name si) (fmt_ip A si) (fmt_ip A di) p q
        ≡ v1_meaning si di (record { ip = si; port = p }) (record { ip = di; port = q })
  unfolding v1_addresses proto_name fmt_ip byte_values eq_text
  v1_addresses-v1_meaning (v4 s) (v4 d) p q hs hd =
      rw (A.parse-fmt_v4 s hs, A.parse-fmt_v4 d hd) refl
  v1_addresses-v1_meaning (v6 s) (v6 d) p q hs hd =
      rw (A.parse-fmt_v6 s hs, A.parse-fmt_v6 d hd) refl
  v1_addresses-v1_meaning (v4 s) (v6 d) p q hs hd =
      rw (A.parse-fmt_v4 s hs, A.parse_v4-fmt_v6 d) refl
  v1_addresses-v1_meaning (v6 s) (v4 d) p q hs hd =
      rw (A.parse-fmt_v6 s hs, A.parse_v6-fmt_v4 d) refl

  -- A version 1 header fits the parser's buffer of 108 bytes, and is parsed back to its two addresses
  -- with exactly the header consumed, if they are of one family; built for addresses of different
  -- families it is refused as malformed. Its line is taken as valid UTF-8.
  pub parse_v1-build_v1 :
      (valid_utf8 : Text → Bool) (src dst : SocketAddr) (rest : Text)
      → valid_utf8 (v1_line A src dst) ≡ true
      → IsAddress src
      → IsAddress dst
      → parse_v1 A valid_utf8 (build_v1 A src dst ++ rest)
        ≡ (v1_meaning src.ip dst.ip src dst >>= λ a. ok (a, rest))
  unfolding parse_v1 build_v1
  parse_v1-build_v1 valid_utf8 src dst rest valid hs hd =
      let line = v1_line A src dst in
      let (plain, short) = v1_line-plain src dst hs.port hd.port in
      ap (parse_v1 A valid_utf8) (append_assoc line crlf rest)
      ∙ rw
          (
            read_line-crlf 108 line rest (omega arith) plain,
            parse_v1,
            take-append_crlf line,
            valid,
            splitn-v1_line src dst,
            v1_parts-pieces src dst hs.port hd.port,
            v1_addresses-v1_meaning src.ip dst.ip src.port dst.port hs.ip hd.ip,
          )
          refl
