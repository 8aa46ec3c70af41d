-- ===== src/ProxyProto/Binary.antt =====
-- Version 2 of the PROXY protocol: what is built is parsed back, and no byte behind it is read.
use mathlib.Core.List.{append-nil, append_assoc}
use hypershunt.Prelude.{
  ℕ, ◌+◌, ◌-◌, ◌*◌, ◌/◌, ◌%◌, ◌<◌, ◌≡◌, refl, ap, subst, ◌∙◌, false, Option, none, some, List, [],
  ◌∷◌, ◌++◌, length, take, drop, replicate, length-append, length-replicate, length-take, ltb,
  arith, min,
}
use hypershunt.Prelude.Text.{Text, eq_text}
use hypershunt.Prelude.Result.{ok, ◌>>=◌}
use hypershunt.Net.{
  IpAddr, v4, v6, SocketAddr, octets, from_be, byte_values, from_be-octets, length-octets,
}
use hypershunt.ProxyProto.Defs.{
  Addresses, v2_signature, v2_tail, v2_block, v2_addresses, build_v2, build_v2_unspec,
  build_v2_unix, path_slot, read_exact, v2_family, v2_command, parse_v2, block_number,
}

take-append {ℓ} : {A : Type ℓ} (xs ys : List A) → take (length xs) (xs ++ ys) ≡ xs
take-append [] ys = refl
take-append (x ∷ xs) ys = ap (◌∷◌ x) (take-append xs ys)

drop-append {ℓ} : {A : Type ℓ} (xs ys : List A) → drop (length xs) (xs ++ ys) ≡ ys
drop-append [] ys = refl
drop-append (x ∷ xs) ys = drop-append xs ys

pub read_exact-append : (xs ys : Text) → read_exact (length xs) (xs ++ ys) ≡ ok (xs, ys)
unfolding read_exact
read_exact-append xs ys =
    let enough : ltb (length (xs ++ ys)) (length xs) ≡ false =
      ground (arith, length-append xs ys) in
    rw (enough, take-append, drop-append) refl

-- The sixteen bytes before a block.
fixed_part : ℕ → ℕ → Text
fixed_part family n = v2_signature ++ 0x21 ∷ family ∷ octets 2 n

parse_v2-fixed_part :
    (family n : ℕ) (s : Text)
    → n < 65_536
    → parse_v2 (fixed_part family n ++ s)
      ≡ (read_exact n s >>= λ q. v2_command 1 (family / 16) (q.0) >>= λ a. ok (a, q.1))
unfolding parse_v2 fixed_part octets eq_text from_be
parse_v2-fixed_part family n s h =
    let whole : (0 + n / 256 % 256) * 256 + n % 256 ≡ n = omega arith in
    rw (read_exact-append (fixed_part family n) s) (rw whole)

-- A header with the command PROXY leaves what stands behind its block, and means what its block says.
pub parse_v2-v2_tail :
    (family : ℕ) (block rest : Text)
    → length block < 65_536
    → parse_v2 ((v2_signature ++ 0x21 ∷ v2_tail family block) ++ rest)
      ≡ (v2_command 1 (family / 16) block >>= λ a. ok (a, rest))
unfolding v2_tail octets
parse_v2-v2_tail family block rest h =
    unfold fixed_part in
    (parse_v2-fixed_part family (length block) (block ++ rest) h
      ∙ rw (read_exact-append block rest) refl)

-- The number that stands in a text behind so many bytes.
block_number-octets :
    (width n at : ℕ) (before after : Text)
    → n < byte_values width
    → length before ≡ at
    → block_number (before ++ (octets width n ++ after)) at width ≡ n
block_number-octets width n at before after h e =
    let here : drop at (before ++ (octets width n ++ after)) ≡ octets width n ++ after =
      subst (λ k. drop k (before ++ (octets width n ++ after)) ≡ octets width n ++ after) e
        (drop-append before (octets width n ++ after)) in
    let first : take width (octets width n ++ after) ≡ octets width n =
      subst (λ k. take k (octets width n ++ after) ≡ octets width n) (length-octets width n)
        (take-append (octets width n) after) in
    rw (here, first) (from_be-octets width n h)

-- Where a block of two addresses and two ports holds them.
pub record Holds (block : Text) (width s d p q : ℕ) : Type 0 where
  pub size : length block ≡ width + width + 4
  pub source : block_number block 0 width ≡ s
  pub target : block_number block width width ≡ d
  pub source_port : block_number block (width + width) 2 ≡ p
  pub target_port : block_number block (width + width + 2) 2 ≡ q

v2_block-Holds :
    (width s d : ℕ) (src dst : SocketAddr)
    → s < byte_values width
    → d < byte_values width
    → src.port < 65_536
    → dst.port < 65_536
    → Holds (v2_block width s d src dst) width s d src.port dst.port
unfolding v2_block
v2_block-Holds width s d src dst hs hd hp hq =
    let S = octets width s in
    let D = octets width d in
    let P = octets 2 src.port in
    let Q = octets 2 dst.port in
    let ls = length-octets width s in
    let ld = length-octets width d in
    let lp = length-octets 2 src.port in
    let lq = length-octets 2 dst.port in
    let sd = length-append S D in
    let two : byte_values 2 ≡ 65_536 = unfold byte_values in refl in
    record {
      size = omega (
        arith,
        ls,
        ld,
        lp,
        lq,
        length-append S (D ++ (P ++ Q)),
        length-append D (P ++ Q),
        length-append P Q,
      );
      source = block_number-octets width s 0 [] (D ++ (P ++ Q)) hs refl;
      target = block_number-octets width d width S (P ++ Q) hd ls;
      source_port = rw (← append_assoc S D (P ++ Q)) (
          block_number-octets 2 src.port (width + width) (S ++ D) Q (omega arith)
            (omega (arith, ls, ld, sd)));
      target_port =
          rw (← append_assoc S D (P ++ Q), ← append_assoc (S ++ D) P Q, ← append-nil Q)
            (block_number-octets 2 dst.port (width + width + 2) ((S ++ D) ++ P) [] (omega arith)
              (omega (arith, ls, ld, lp, sd, length-append (S ++ D) P)));
    }

-- An address that its types can hold.
abbrev pub IsIp : IpAddr → Type 0
IsIp (v4 a) = a < byte_values 4
IsIp (v6 a) = a < byte_values 16

pub record IsAddress (a : SocketAddr) : Type 0 where
  pub ip : IsIp a.ip
  pub port : a.port < 65_536

-- What a header of version 2 can say: both addresses if they are of one family.
abbrev pub v2_meaning : IpAddr → IpAddr → SocketAddr → SocketAddr → Addresses
v2_meaning (v4 s) (v4 d) src dst = some (src, dst)
v2_meaning (v6 s) (v6 d) src dst = some (src, dst)
v2_meaning (v4 s) (v6 d) src dst = none
v2_meaning (v6 s) (v4 d) src dst = none

v2_command_v4 :
    (block : Text) (s d p q : ℕ)
    → Holds block 4 s d p q
    → v2_command 1 1 block
      ≡ ok (some (record { ip = v4 s; port = p }, record { ip = v4 d; port = q }))
unfolding v2_command v2_family
v2_command_v4 block s d p q h =
    let long : ltb (length block) 12 ≡ false = ground (arith, h.size) in
    rw (long, h.source, h.target, h.source_port, h.target_port) refl

v2_command_v6 :
    (block : Text) (s d p q : ℕ)
    → Holds block 16 s d p q
    → v2_command 1 2 block
      ≡ ok (some (record { ip = v6 s; port = p }, record { ip = v6 d; port = q }))
unfolding v2_command v2_family
v2_command_v6 block s d p q h =
    let long : ltb (length block) 36 ≡ false = ground (arith, h.size) in
    rw (long, h.source, h.target, h.source_port, h.target_port) refl

v2_addresses-v2_meaning :
    (si di : IpAddr) (src dst : SocketAddr) (rest : Text)
    → IsIp si
    → IsIp di
    → src.port < 65_536
    → dst.port < 65_536
    → parse_v2 ((v2_signature ++ 0x21 ∷ v2_addresses si di src dst) ++ rest)
      ≡ ok (
        v2_meaning si di
            (record { ip = si; port = src.port })
            (record { ip = di; port = dst.port }),
        rest,
      )
unfolding v2_command
v2_addresses-v2_meaning (v4 s) (v4 d) src dst rest hs hd hp hq =
    let block = v2_block 4 s d src dst in
    let h = v2_block-Holds 4 s d src dst hs hd hp hq in
    parse_v2-v2_tail 0x11 block rest (omega (arith, h.size))
    ∙ rw (v2_command_v4 block s d src.port dst.port h) refl
v2_addresses-v2_meaning (v6 s) (v6 d) src dst rest hs hd hp hq =
    let block = v2_block 16 s d src dst in
    let h = v2_block-Holds 16 s d src dst hs hd hp hq in
    parse_v2-v2_tail 0x21 block rest (omega (arith, h.size))
    ∙ rw (v2_command_v6 block s d src.port dst.port h) refl
v2_addresses-v2_meaning (v4 s) (v6 d) src dst rest hs hd hp hq =
    parse_v2-v2_tail 0 [] rest (omega arith)
v2_addresses-v2_meaning (v6 s) (v4 d) src dst rest hs hd hp hq =
    parse_v2-v2_tail 0 [] rest (omega arith)

-- A version 2 header, followed by anything, is parsed back to its two addresses, or to none if they
-- are of different families, and exactly the header is consumed.
pub parse_v2-build_v2 :
    (src dst : SocketAddr) (rest : Text)
    → IsAddress src
    → IsAddress dst
    → parse_v2 (build_v2 src dst ++ rest) ≡ ok (v2_meaning src.ip dst.ip src dst, rest)
unfolding build_v2
parse_v2-build_v2 src dst rest hs hd =
    v2_addresses-v2_meaning src.ip dst.ip src dst rest hs.ip hd.ip hs.port hd.port

length-path_slot : (path : Option Text) → length (path_slot path) ≡ 108
unfolding path_slot
length-path_slot none = refl
length-path_slot (some raw) = omega (
  arith,
  length-append (take 107 raw) (replicate (108 - min (length raw) 107) 0),
  length-take 107 raw,
  length-replicate {A = ℕ} (108 - min (length raw) 107) 0,
)

-- The headers for a client with no address, with or without socket paths, are parsed to no address,
-- and exactly the header is consumed.
pub parse_v2-build_v2_unix :
    (src dst : Option Text) (rest : Text)
    → (parse_v2 (build_v2_unspec ++ rest) ≡ ok (none, rest))
      × (parse_v2 (build_v2_unix src dst ++ rest) ≡ ok (none, rest))
unfolding build_v2_unspec build_v2_unix v2_command v2_family v2_tail
parse_v2-build_v2_unix src dst rest =
    let block = path_slot src ++ path_slot dst in
    let size : length block ≡ 216 = omega (
      arith,
      length-append (path_slot src) (path_slot dst),
      length-path_slot src,
      length-path_slot dst,
    ) in
    (
      parse_v2-v2_tail 0 [] rest (omega arith),
      subst
          (λ n.
            parse_v2 ((v2_signature ++ 0x21 ∷ 0x31 ∷ octets 2 n ++ block) ++ rest)
            ≡ ok (none, rest))
          size (parse_v2-v2_tail 0x31 block rest (omega arith)),
    )
