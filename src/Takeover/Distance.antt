-- ===== src/Takeover/Distance.antt =====
-- `ip_distance` of server/ctdb_takeover.c: what its loop counts, its bounds, and its symmetry.
use Prim.Native.Nat.{bit_xor}
use native.Mathlib.Nat.{pow-suc}
use ctdb.Base.{
  ℕ, zero, suc, ◌*◌, ◌/◌, ◌%◌, ◌^◌, ◌≤◌, ◌<◌, ◌≡◌, ◌≢◌, dec_lt, ap, arith, ◌==◌, true, false,
  Bool-cases, inl, inr, u32,
}
use ctdb.Base.Bits.{bit_xor_comm, bit_xor-lt, bit_xor-eq-zero, bit_xor_self}
use ctdb.Takeover.Address.{
  SockAddr, ip_key, leading_zeros, word_distance, key_distance, ip_distance, inet6,
}

pub leading_zeros-le : (n x : ℕ) → leading_zeros n x ≤ n
unfolding leading_zeros
leading_zeros-le zero x = omega arith
leading_zeros-le (suc n) x = ground (arith, leading_zeros-le n (u32 (x * 2)))

leading_zeros_low : (n x : ℕ) → x < 2 ^ 31 → leading_zeros (suc n) x ≡ suc (leading_zeros n (x * 2))
unfolding leading_zeros
leading_zeros_low n x h =
    let shift : u32 (x * 2) ≡ x * 2 = omega arith in
    let low : (x / 2 ^ 31 % 2 == 0) ≡ true = ground arith in rw (low, leading_zeros, shift)

leading_zeros_high : (n x : ℕ) → 2 ^ 31 ≤ x → x < 2 ^ 32 → leading_zeros (suc n) x ≡ 0
unfolding leading_zeros
leading_zeros_high n x h k =
    let high : (x / 2 ^ 31 % 2 == 0) ≡ false = ground arith in rw (high, leading_zeros)

-- Shifting a word by the count brings its highest digit to the top: for a word that is not zero, 32
-- rounds are enough.
pub leading_zeros_lem :
    (n x : ℕ)
    → x < 2 ^ 32
    → 2 ^ 31 ≤ x * 2 ^ n
    → (2 ^ 31 ≤ x * 2 ^ leading_zeros n x) × (x * 2 ^ leading_zeros n x < 2 ^ 32)
leading_zeros_lem zero x h k =
    let e : leading_zeros 0 x ≡ 0 = omega (arith, leading_zeros-le 0 x) in
    rw e (omega arith, omega arith)
leading_zeros_lem (suc n) x h k = elim (dec_lt x (2 ^ 31)) [
  | yes low ↦
      let ih =
        leading_zeros_lem n (x * 2) (omega arith)
          (omega (arith, ap (λ (t : ℕ). x * t) (pow-suc 2 n))) in
      let top = ap (λ (t : ℕ). x * t) (pow-suc 2 (leading_zeros n (x * 2))) in
      rw (leading_zeros_low n x low) (omega (arith, ih.0, top), omega (arith, ih.1, top))
  | no high ↦ rw (leading_zeros_high n x (omega arith) h) (omega arith, omega arith)
]

word_distance-le : (a b : ℕ) → word_distance a b ≤ 32
unfolding word_distance
word_distance-le a b = ground (arith, leading_zeros-le 32 (bit_xor a b))

word_distance_comm : (a b : ℕ) → word_distance a b ≡ word_distance b a
unfolding word_distance
word_distance_comm a b = rw (bit_xor_comm a b)

pub ip_distance_comm : (a b : SockAddr) → ip_distance a b ≡ ip_distance b a
unfolding ip_distance key_distance
ip_distance_comm a b = omega (
  arith,
  word_distance_comm (ip_key a).k0 (ip_key b).k0,
  word_distance_comm (ip_key a).k1 (ip_key b).k1,
  word_distance_comm (ip_key a).k2 (ip_key b).k2,
  word_distance_comm (ip_key a).k3 (ip_key b).k3,
)

pub ip_distance-le : (a b : SockAddr) → ip_distance a b ≤ 128
unfolding ip_distance key_distance
ip_distance-le a b = omega (
  arith,
  word_distance-le (ip_key a).k0 (ip_key b).k0,
  word_distance-le (ip_key a).k1 (ip_key b).k1,
  word_distance-le (ip_key a).k2 (ip_key b).k2,
  word_distance-le (ip_key a).k3 (ip_key b).k3,
)

pub square-le : (a b : SockAddr) → ip_distance a b * ip_distance a b ≤ 16384
square-le a b = let h = ip_distance-le a b in grind arith

pub square_comm :
    (a b : SockAddr) → ip_distance a b * ip_distance a b ≡ ip_distance b a * ip_distance b a
square_comm a b = ap (λ (d : ℕ). d * d) (ip_distance_comm a b)

word_distance_same : (a : ℕ) → word_distance a a ≡ 32
unfolding word_distance
word_distance_same a = ground (arith, bit_xor_self a)

-- Words that differ have a common prefix of less than 32 digits.
word_distance-lt : (a b : ℕ) → a < 2 ^ 32 → b < 2 ^ 32 → a ≢ b → word_distance a b < 32
unfolding word_distance
word_distance-lt a b p q h = elim (Bool-cases (bit_xor a b == 0)) [
  | inl same ↦ absurd (h (bit_xor-eq-zero a b (ground arith)))
  | inr other ↦
      let x = bit_xor a b in
      let run = leading_zeros_lem 32 x (bit_xor-lt 32 a b p q) (ground arith) in
      elim (dec_lt (leading_zeros 32 x) 32) [
        | yes few ↦ rw other few
        | no all ↦
            let full : leading_zeros 32 x ≡ 32 = omega (arith, leading_zeros-le 32 x) in
            absurd (ground (arith, rw full at run.1))
      ]
]

-- The distance goes on past the first word that differs: two IPv6 addresses that differ in their
-- first word and agree in the others are 96 or more apart, though fewer than 32 digits of their
-- common prefix are common.
pub ip_distance-past_prefix :
    (a b w1 w2 w3 p q : ℕ)
    → a < 2 ^ 32
    → b < 2 ^ 32
    → a ≢ b
    → (96 ≤ ip_distance (inet6 a w1 w2 w3 p) (inet6 b w1 w2 w3 q)) × (word_distance a b < 32)
unfolding ip_distance key_distance ip_key
ip_distance-past_prefix a b w1 w2 w3 p q la lb h = (
  omega (arith, word_distance_same w1, word_distance_same w2, word_distance_same w3),
  word_distance-lt a b la lb h,
)
