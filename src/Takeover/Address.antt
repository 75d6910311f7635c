-- ===== src/Takeover/Address.antt =====
-- common/ctdb_util.c and server/ctdb_takeover.c: socket addresses, their keys, and the distance of
-- two addresses. A 32-bit word of an address is the number that its four bytes spell in network
-- order, which is what `htonl` turns it into on a little-endian host.
use Prim.Native.Nat.{bit_xor}
use ctdb.Base.{
  ℕ, zero, suc, ◌+◌, ◌*◌, ◌/◌, ◌%◌, ◌^◌, Bool, true, false, ◌&&◌, ◌==◌, u32, if◌then◌else◌, ◌≡◌,
  refl,
}

-- `ctdb_sock_addr`: AF_INET, AF_INET6, or a family that the code does not know.
pub data SockAddr : Type 0 where
  inet : (s_addr port : ℕ) → SockAddr
  inet6 : (w0 w1 w2 w3 port : ℕ) → SockAddr
  other : (sa_family : ℕ) → SockAddr

-- An address that is mapped from IPv4 becomes the IPv4 address.
unfoldable pub ctdb_canonicalize_ip : SockAddr → SockAddr
ctdb_canonicalize_ip (inet a p) = inet a p
ctdb_canonicalize_ip (inet6 w0 w1 w2 w3 p) =
    if w0 == 0 && w1 == 0 && w2 == 0xffff then inet w3 p else inet6 w0 w1 w2 w3 p
ctdb_canonicalize_ip (other f) = other f

same_canonical : SockAddr → SockAddr → Bool
same_canonical (inet a p) (inet b q) = a == b
same_canonical (inet6 a0 a1 a2 a3 p) (inet6 b0 b1 b2 b3 q) =
    a0 == b0 && a1 == b1 && a2 == b2 && a3 == b3
same_canonical _ _ = false

unfoldable pub ctdb_same_ip : SockAddr → SockAddr → Bool
unfolding same_canonical
ctdb_same_ip tip1 tip2 = same_canonical (ctdb_canonicalize_ip tip1) (ctdb_canonicalize_ip tip2)

-- The four words of `IP_KEYLEN`.
pub record Key : Type 0 where
  pub k0 : ℕ
  pub k1 : ℕ
  pub k2 : ℕ
  pub k3 : ℕ

unfoldable pub ip_key : SockAddr → Key
ip_key (inet a p) = record { k0 = 0; k1 = 0; k2 = 0; k3 = a }
ip_key (inet6 w0 w1 w2 w3 p) = record { k0 = w0; k1 = w1; k2 = w2; k3 = w3 }
ip_key (other f) = record { k0 = 0; k1 = 0; k2 = 0; k3 = 0 }

-- `while ((x & (1 << 31)) == 0) { x <<= 1; distance += 1; }`, at most so many rounds.
unfoldable pub leading_zeros : ℕ → ℕ → ℕ
leading_zeros zero x = 0
leading_zeros (suc rounds) x = elim (x / 2 ^ 31 % 2 == 0) [
  | true ↦ suc (leading_zeros rounds (u32 (x * 2)))
  | false ↦ 0
]

-- What one word of the two keys adds to the distance.
unfoldable pub word_distance : ℕ → ℕ → ℕ
word_distance a b = let x = bit_xor a b in if x == 0 then 32 else leading_zeros 32 x

unfoldable pub key_distance : Key → Key → ℕ
key_distance a b =
    word_distance a.k0 b.k0
    + word_distance a.k1 b.k1
    + word_distance a.k2 b.k2
    + word_distance a.k3 b.k3

unfoldable pub ip_distance : SockAddr → SockAddr → ℕ
ip_distance ip1 ip2 = key_distance (ip_key ip1) (ip_key ip2)

near_addresses : ip_distance (inet 0x0a000001 0) (inet 0x0a000002 0) ≡ 126
unfolding ip_distance key_distance ip_key word_distance leading_zeros
near_addresses = refl
