-- ===== src/Prelude/Bits.antt =====
-- Bits of native numbers: what a mask of ones leaves of a number, and two numbers that share no bits.
use Prim.Native.Nat.{
  ℕ, zero, suc, ◌+◌, ◌*◌, ◌/◌, ◌%◌, ◌^◌, ◌≤◌, ◌<◌, min, max, bit_and, bit_or, digits,
  bit_and-bitwise, bit_or-bitwise,
}
use mathlib.Core.Path.{◌≡◌, refl, sym}
use native.Mathlib.Omega.{arith}
use native.Mathlib.Nat.{mul_assoc, pow-suc}

module _ (z : ℕ → ℕ) (f : ℕ → ℕ → ℕ) where
  -- Any count of digits will do that is not below the number.
  digits-count : (a b n m : ℕ) → a ≤ n → a ≤ m → digits z f n a b ≡ digits z f m a b
  digits-count a b zero zero left right = refl
  digits-count zero b zero (suc m) left right = refl
  digits-count zero b (suc n) zero left right = refl
  digits-count zero b (suc n) (suc m) left right = refl
  digits-count (suc a) b zero m left right = absurd (omega arith)
  digits-count (suc a) b (suc n) zero left right = absurd (omega arith)
  digits-count (suc a) b (suc n) (suc m) left right =
      let halved = digits-count (suc a / 2) (b / 2) n m (omega arith) (omega arith) in
      omega (arith, halved)

-- By the lowest bit and the others.
bit_and_halves : (a b : ℕ) → bit_and a b ≡ bit_and (a / 2) (b / 2) * 2 + min (a % 2) (b % 2)
bit_and_halves zero b = omega (arith, bit_and-bitwise 0 b, bit_and-bitwise 0 (b / 2))
bit_and_halves (suc a) b =
    let half = suc a / 2 in
    omega (
      arith,
      bit_and-bitwise (suc a) b,
      bit_and-bitwise half (b / 2),
      digits-count (λ b. 0) min half (b / 2) a half (omega arith) (omega arith),
    )

bit_or_halves : (a b : ℕ) → bit_or a b ≡ bit_or (a / 2) (b / 2) * 2 + max (a % 2) (b % 2)
bit_or_halves zero b = omega (arith, bit_or-bitwise 0 b, bit_or-bitwise 0 (b / 2))
bit_or_halves (suc a) b =
    let half = suc a / 2 in
    omega (
      arith,
      bit_or-bitwise (suc a) b,
      bit_or-bitwise half (b / 2),
      digits-count (λ b. b) max half (b / 2) a half (omega arith) (omega arith),
    )

-- As many ones.
abbrev pub mask : ℕ → ℕ
mask zero = 0
mask (suc k) = mask k * 2 + 1

bit_and-zero : (n a : ℕ) → a ≤ n → bit_and a 0 ≡ 0
bit_and-zero n zero small = refl
bit_and-zero zero (suc a) small = absurd (omega arith)
bit_and-zero (suc n) (suc a) small =
    omega (arith, bit_and_halves (suc a) 0, bit_and-zero n (suc a / 2) (omega arith))

bit_or-zero : (n a : ℕ) → a ≤ n → bit_or a 0 ≡ a
bit_or-zero n zero small = refl
bit_or-zero zero (suc a) small = absurd (omega arith)
bit_or-zero (suc n) (suc a) small =
    omega (arith, bit_or_halves (suc a) 0, bit_or-zero n (suc a / 2) (omega arith))

pub zero-bit_or : (b : ℕ) → bit_or 0 b ≡ b
zero-bit_or b = omega (arith, bit_or-bitwise 0 b)

-- A number moved up by one place more.
moved : (b k : ℕ) → b * 2 ^ suc k ≡ (b * 2 ^ k) * 2
moved b k = rw (pow-suc 2 k) (sym (mul_assoc b (2 ^ k) 2))

-- The ones of a mask are the lower of two numbers that lie beside each other.
pub bit_and-mask : (k a b : ℕ) → a < 2 ^ k → bit_and (a + b * 2 ^ k) (mask k) ≡ a
bit_and-mask zero a b small = omega (arith, bit_and-zero (a + b * 1) (a + b * 1) (omega arith))
bit_and-mask (suc k) a b small =
    let w = a + b * 2 ^ suc k in
    let half : w / 2 ≡ a / 2 + b * 2 ^ k = omega (arith, moved b k) in
    let lowest : w % 2 ≡ a % 2 = omega (arith, moved b k) in
    let mask_half : (mask k * 2 + 1) / 2 ≡ mask k = omega arith in
    let mask_lowest : (mask k * 2 + 1) % 2 ≡ 1 = omega arith in
    let rest = bit_and-mask k (a / 2) b (omega (arith, moved 1 k)) in
    rw (bit_and_halves w (mask k * 2 + 1), half, lowest, mask_half, mask_lowest, rest) (omega arith)

-- Two numbers that lie beside each other are joined by `or`.
pub bit_or-apart : (k a b : ℕ) → a < 2 ^ k → bit_or a (b * 2 ^ k) ≡ a + b * 2 ^ k
bit_or-apart zero a b small = rw (none_left a small) (omega (arith, bit_or-bitwise 0 (b * 1)))
  where
    none_left : (a : ℕ) → a < 1 → a ≡ 0
    none_left a small = omega arith
bit_or-apart (suc k) a b small =
    let m = b * 2 ^ suc k in
    let half : m / 2 ≡ b * 2 ^ k = omega (arith, moved b k) in
    let lowest : m % 2 ≡ 0 = omega (arith, moved b k) in
    let rest = bit_or-apart k (a / 2) b (omega (arith, moved 1 k)) in
    rw (bit_or_halves a m, half, lowest, rest) (omega (arith, moved b k))
