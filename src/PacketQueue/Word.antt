-- ===== src/PacketQueue/Word.antt =====
-- The first four bytes of a packet, its length as a `uint32_t` on a little-endian host, such as
-- `*(uint32_t *)data` reads and writes it.
use ctdb.Base.{
  ℕ, ◌+◌, ◌*◌, ◌/◌, ◌%◌, ◌<◌, ◌≤◌, ◌≡◌, refl, arith, List, [], ◌∷◌, ◌++◌, length, u32_mod,
}

-- Fewer than four bytes are never read.
unfoldable pub load32 : List ℕ → ℕ
load32 (a ∷ b ∷ c ∷ d ∷ rest) = a + 256 * b + 65536 * c + 16777216 * d
load32 other = 0

unfoldable pub bytes32 : ℕ → List ℕ
bytes32 n = (n % 256) ∷ (n / 256 % 256) ∷ (n / 65536 % 256) ∷ (n / 16777216 % 256) ∷ []

-- `*(uint32_t *)data = n`, for data of four bytes at least.
unfoldable pub store32 : ℕ → List ℕ → List ℕ
store32 n (a ∷ b ∷ c ∷ d ∷ rest) = bytes32 n ++ rest
store32 n other = other

pub load32-store32 : (n : ℕ) (bs : List ℕ) → n < u32_mod → 4 ≤ length bs → load32 (store32 n bs) ≡ n
unfolding load32 store32 bytes32
load32-store32 n [] h l = absurd (omega arith)
load32-store32 n (a ∷ []) h l = absurd (omega arith)
load32-store32 n (a ∷ b ∷ []) h l = absurd (omega arith)
load32-store32 n (a ∷ b ∷ c ∷ []) h l = absurd (omega arith)
load32-store32 n (a ∷ b ∷ c ∷ d ∷ rest) h l = omega arith

pub length-store32 : (n : ℕ) (bs : List ℕ) → length (store32 n bs) ≡ length bs
unfolding store32 bytes32
length-store32 n [] = refl
length-store32 n (a ∷ []) = refl
length-store32 n (a ∷ b ∷ []) = refl
length-store32 n (a ∷ b ∷ c ∷ []) = refl
length-store32 n (a ∷ b ∷ c ∷ d ∷ rest) = refl

-- Only the first four bytes are read.
pub load32-append : (xs ys : List ℕ) → 4 ≤ length xs → load32 (xs ++ ys) ≡ load32 xs
unfolding load32
load32-append [] ys l = absurd (omega arith)
load32-append (a ∷ []) ys l = absurd (omega arith)
load32-append (a ∷ b ∷ []) ys l = absurd (omega arith)
load32-append (a ∷ b ∷ c ∷ []) ys l = absurd (omega arith)
load32-append (a ∷ b ∷ c ∷ d ∷ rest) ys l = refl
