-- ===== src/Base/Bits.antt =====
-- `&` and `|` as arithmetic: the step on the lowest digit, masks of adjacent ones, and `|` of
-- numbers whose digits do not overlap.
use Prim.Native.Nat.{
  ℕ, zero, suc, ◌+◌, ◌-◌, ◌*◌, ◌/◌, ◌%◌, ◌^◌, ◌≤◌, ◌<◌, min, max, bit_and, bit_or, digits,
  bit_and-bitwise, bit_or-bitwise,
}
use mathlib.Core.Path.{◌≡◌, refl, ap}
use native.Mathlib.Nat.{pow-suc, one-le-pow}
use native.Mathlib.Omega.{arith}

-- More fuel than digits changes nothing.
digits_fuel :
    (z : ℕ → ℕ) (f : ℕ → ℕ → ℕ) (n m a b : ℕ) → a ≤ n → a ≤ m → digits z f n a b ≡ digits z f m a b
digits_fuel z f zero zero a b p q = refl
digits_fuel z f zero (suc m) zero b p q = refl
digits_fuel z f zero (suc m) (suc a) b p q = absurd (omega arith)
digits_fuel z f (suc n) zero zero b p q = refl
digits_fuel z f (suc n) zero (suc a) b p q = absurd (omega arith)
digits_fuel z f (suc n) (suc m) zero b p q = refl
digits_fuel z f (suc n) (suc m) (suc a) b p q =
    ap (λ (t : ℕ). t * 2 + f (suc a % 2) (b % 2))
      (digits_fuel z f n m (suc a / 2) (b / 2) (omega arith) (omega arith))

pub bit_and_step : (a b : ℕ) → bit_and a b ≡ bit_and (a / 2) (b / 2) * 2 + min (a % 2) (b % 2)
bit_and_step zero b = omega (arith, bit_and-bitwise 0 b, bit_and-bitwise 0 (b / 2))
bit_and_step (suc a) b = omega (
  arith,
  bit_and-bitwise (suc a) b,
  bit_and-bitwise (suc a / 2) (b / 2),
  digits_fuel (λ _. 0) min a (suc a / 2) (suc a / 2) (b / 2) (omega arith) (omega arith),
)

pub bit_or_step : (a b : ℕ) → bit_or a b ≡ bit_or (a / 2) (b / 2) * 2 + max (a % 2) (b % 2)
bit_or_step zero b = omega (arith, bit_or-bitwise 0 b, bit_or-bitwise 0 (b / 2))
bit_or_step (suc a) b = omega (
  arith,
  bit_or-bitwise (suc a) b,
  bit_or-bitwise (suc a / 2) (b / 2),
  digits_fuel (λ b. b) max a (suc a / 2) (suc a / 2) (b / 2) (omega arith) (omega arith),
)

-- The digits of `a` run out within `n` halvings.
bit_and-zero_below : (n a : ℕ) → a ≤ n → bit_and a 0 ≡ 0
bit_and-zero_below n zero h = refl
bit_and-zero_below zero (suc a) h = absurd (omega arith)
bit_and-zero_below (suc n) (suc a) h =
    omega (arith, bit_and_step (suc a) 0, bit_and-zero_below n (suc a / 2) (omega arith))

pub bit_and-zero : (a : ℕ) → bit_and a 0 ≡ 0
bit_and-zero a = bit_and-zero_below a a (omega arith)

bit_or-zero_below : (n a : ℕ) → a ≤ n → bit_or a 0 ≡ a
bit_or-zero_below n zero h = refl
bit_or-zero_below zero (suc a) h = absurd (omega arith)
bit_or-zero_below (suc n) (suc a) h =
    omega (arith, bit_or_step (suc a) 0, bit_or-zero_below n (suc a / 2) (omega arith))

pub bit_or-zero : (a : ℕ) → bit_or a 0 ≡ a
bit_or-zero a = bit_or-zero_below a a (omega arith)

-- An even mask leaves the lowest digit to the other operand, or clears it.
bit_or_even : (a m : ℕ) → bit_or a (2 * m) ≡ bit_or (a / 2) m * 2 + a % 2
bit_or_even a m = rw (bit_or_step a (2 * m), half m) (omega arith)
  where
    half : (m : ℕ) → 2 * m / 2 ≡ m
    half m = omega arith

pub bit_and_even : (a m : ℕ) → bit_and a (2 * m) ≡ bit_and (a / 2) m * 2
bit_and_even a m = rw (bit_and_step a (2 * m), half m) (omega arith)
  where
    half : (m : ℕ) → 2 * m / 2 ≡ m
    half m = omega arith

bit_or-1 : (a : ℕ) → bit_or a 1 ≡ a / 2 * 2 + 1
bit_or-1 a = omega (arith, bit_or_step a 1, bit_or-zero (a / 2))

bit_and-1 : (a : ℕ) → bit_and a 1 ≡ a % 2
bit_and-1 a = omega (arith, bit_and_step a 1, bit_and-zero (a / 2))

bit_or-16 : (a : ℕ) → bit_or a 16 ≡ a / 32 * 32 + 16 + a % 16
bit_or-16 a = omega (
  arith,
  bit_or_even a 8,
  bit_or_even (a / 2) 4,
  bit_or_even (a / 2 / 2) 2,
  bit_or_even (a / 2 / 2 / 2) 1,
  bit_or-1 (a / 2 / 2 / 2 / 2),
)

-- `a | 0x80` sets bit 7 and keeps the others.
pub bit_or-128 : (a : ℕ) → bit_or a 128 ≡ a / 256 * 256 + 128 + a % 128
bit_or-128 a = omega (
  arith,
  bit_or_even a 64,
  bit_or_even (a / 2) 32,
  bit_or_even (a / 2 / 2) 16,
  bit_or-16 (a / 2 / 2 / 2),
)

-- `a & 0x80` is bit 7.
pub bit_and-128 : (a : ℕ) → bit_and a 128 ≡ a / 128 % 2 * 128
bit_and-128 a = omega (
  arith,
  bit_and_even a 64,
  bit_and_even (a / 2) 32,
  bit_and_even (a / 2 / 2) 16,
  bit_and_even (a / 2 / 2 / 2) 8,
  bit_and_even (a / 2 / 2 / 2 / 2) 4,
  bit_and_even (a / 2 / 2 / 2 / 2 / 2) 2,
  bit_and_even (a / 2 / 2 / 2 / 2 / 2 / 2) 1,
  bit_and-1 (a / 2 / 2 / 2 / 2 / 2 / 2 / 2),
)

mul-pow-suc : (q k : ℕ) → q * 2 ^ suc k ≡ 2 * (q * 2 ^ k)
mul-pow-suc q k = omega (arith, ap (λ (t : ℕ). q * t) (pow-suc 2 k))

-- A mask of `k` ones keeps the `k` lowest digits.
bit_and_low : (k q r : ℕ) → r < 2 ^ k → bit_and (q * 2 ^ k + r) (2 ^ k - 1) ≡ r
bit_and_low zero q r h = rw bit_and-zero (omega arith)
bit_and_low (suc k) q r h = ground (
  arith,
  bit_and_step (q * 2 ^ suc k + r) (2 ^ suc k - 1),
  mul-pow-suc q k,
  pow-suc 2 k,
  bit_and_low k q (r / 2) (omega (arith, pow-suc 2 k)),
)

pub bit_and_ones : (k a : ℕ) → bit_and a (2 ^ k - 1) ≡ a % 2 ^ k
bit_and_ones k a = ground (arith, one-le-pow k 2, bit_and_low k (a / 2 ^ k) (a % 2 ^ k))

-- A mask whose `k` lowest bits are clear reads the digits from the `k`-th on.
pub bit_and-shifted :
    (k q r m : ℕ) → r < 2 ^ k → bit_and (q * 2 ^ k + r) (m * 2 ^ k) ≡ bit_and q m * 2 ^ k
bit_and-shifted zero q r m h =
    ground (arith, ap (λ (t : ℕ). bit_and t m) {x = q * 1 + r} {y = q} (omega arith))
bit_and-shifted (suc k) q r m h = ground (
  arith,
  bit_and_step (q * 2 ^ suc k + r) (m * 2 ^ suc k),
  mul-pow-suc q k,
  mul-pow-suc m k,
  mul-pow-suc (bit_and q m) k,
  pow-suc 2 k,
  bit_and-shifted k q (r / 2) m (omega (arith, pow-suc 2 k)),
)

-- `|` of a number below `2 ^ k` and one whose `k` lowest bits are clear is their sum.
pub bit_or_disjoint : (k r q : ℕ) → r < 2 ^ k → bit_or r (q * 2 ^ k) ≡ r + q * 2 ^ k
bit_or_disjoint zero zero q h = omega (arith, bit_or-bitwise 0 (q * 2 ^ 0))
bit_or_disjoint zero (suc r) q h = absurd (omega arith)
bit_or_disjoint (suc k) r q h = ground (
  arith,
  bit_or_step r (q * 2 ^ suc k),
  mul-pow-suc q k,
  pow-suc 2 k,
  bit_or_disjoint k (r / 2) q (omega (arith, pow-suc 2 k)),
)
