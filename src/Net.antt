-- ===== src/Net.antt =====
-- `IpAddr` and `SocketAddr` of Rust's standard library, as the source uses them.
use hypershunt.Prelude.{
  ℕ, zero, suc, ◌/◌, ◌%◌, ◌*◌, ◌+◌, ◌<◌, ◌≡◌, refl, Option, none, some, List, [], ◌∷◌, ◌++◌, length,
  length-append, arith, ◌==◌, if◌then◌else◌,
}

-- An address is the number that its octets spell, most significant first.
pub data IpAddr : Type 0 where
  v4 : ℕ → IpAddr
  v6 : ℕ → IpAddr

-- The address and the port; the flow information and scope of a `SocketAddrV6` are left out, since a
-- PROXY header does not carry them.
pub record SocketAddr : Type 0 where
  pub ip : IpAddr
  pub port : ℕ

-- `Ipv6Addr::to_ipv4_mapped`: the addresses ::ffff:0:0/96.
unfoldable pub to_ipv4_mapped : ℕ → Option ℕ
to_ipv4_mapped n = if n / 4_294_967_296 == 0xffff then some (n % 4_294_967_296) else none

-- The mapped form of an IPv4 address.
abbrev pub mapped : ℕ → ℕ
mapped a = 0xffff * 4_294_967_296 + a

pub to_ipv4_mapped-mapped : (a : ℕ) → a < 4_294_967_296 → to_ipv4_mapped (mapped a) ≡ some a
unfolding to_ipv4_mapped
to_ipv4_mapped-mapped a h = ground arith

-- `octets`: the bytes of a number, most significant first, in a given count.
unfoldable pub octets : ℕ → ℕ → List ℕ
octets zero n = []
octets (suc k) n = octets k (n / 256) ++ n % 256 ∷ []

-- `from_be_bytes`, behind a number already read.
unfoldable pub from_be : ℕ → List ℕ → ℕ
from_be acc [] = acc
from_be acc (b ∷ bs) = from_be (acc * 256 + b) bs

-- How many numbers fit so many bytes.
unfoldable pub byte_values : ℕ → ℕ
byte_values zero = 1
byte_values (suc k) = 256 * byte_values k

from_be-snoc :
    (acc : ℕ) (bs : List ℕ) (b : ℕ) → from_be acc (bs ++ b ∷ []) ≡ from_be acc bs * 256 + b
unfolding from_be
from_be-snoc acc [] b = refl
from_be-snoc acc (c ∷ bs) b = from_be-snoc (acc * 256 + c) bs b

pub from_be-octets : (k n : ℕ) → n < byte_values k → from_be 0 (octets k n) ≡ n
unfolding byte_values octets from_be
from_be-octets zero n h = omega arith
from_be-octets (suc k) n h =
    omega (
      arith,
      from_be-snoc 0 (octets k (n / 256)) (n % 256),
      from_be-octets k (n / 256) (omega arith),
    )

pub length-octets : (k n : ℕ) → length (octets k n) ≡ k
unfolding octets
length-octets zero n = refl
length-octets (suc k) n =
    omega (arith, length-append (octets k (n / 256)) (n % 256 ∷ []), length-octets k (n / 256))
