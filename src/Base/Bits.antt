-- ===== src/Base/Bits.antt =====
-- Bounds of the bitwise operations, and masks of low bits.
use Prim.Native.Nat.{
  ℕ, zero, suc, ◌/◌, ◌%◌, ◌^◌, ◌≤◌, ◌<◌, min, max, differ, bit_and, bit_or, bit_xor, digits,
  bit_and-bitwise, bit_or-bitwise, bit_xor-bitwise,
}
use mathlib.Core.Path.{◌≡◌, refl}
use native.Mathlib.Omega.{arith}

abbrev and_digits : ℕ → ℕ → ℕ → ℕ
and_digits = digits (λ c. zero) min

min-digits-le : (n a b : ℕ) → and_digits n a b ≤ b
min-digits-le zero a b = omega arith
min-digits-le (suc n) zero b = omega arith
min-digits-le (suc n) (suc a) b = omega (arith, min-digits-le n (suc a / 2) (b / 2))

pub bit_and-le : (a b : ℕ) → bit_and a b ≤ b
bit_and-le a b = omega (arith, bit_and-bitwise a b, min-digits-le a a b)

-- The digits under a mask of one, two and three bits
digits_mask1 : (n a : ℕ) → a ≤ n → and_digits n a 1 ≡ a % 2
digits_mask1 zero zero h = refl
digits_mask1 zero (suc a) h = absurd (omega arith)
digits_mask1 (suc n) zero h = refl
digits_mask1 (suc n) (suc a) h = omega (arith, min-digits-le n (suc a / 2) 0)

digits_mask2 : (n a : ℕ) → a ≤ n → and_digits n a 3 ≡ a % 4
digits_mask2 zero zero h = refl
digits_mask2 zero (suc a) h = absurd (omega arith)
digits_mask2 (suc n) zero h = refl
digits_mask2 (suc n) (suc a) h = omega (arith, digits_mask1 n (suc a / 2) (omega arith))

digits_mask3 : (n a : ℕ) → a ≤ n → and_digits n a 7 ≡ a % 8
digits_mask3 zero zero h = refl
digits_mask3 zero (suc a) h = absurd (omega arith)
digits_mask3 (suc n) zero h = refl
digits_mask3 (suc n) (suc a) h = omega (arith, digits_mask2 n (suc a / 2) (omega arith))

pub bit_and_mask7 : (a : ℕ) → bit_and a 7 ≡ a % 8
bit_and_mask7 a = omega (arith, bit_and-bitwise a 7, digits_mask3 a a (omega arith))

-- An operation on digits stays within the width of its arguments.
digits-lt :
    (f : ℕ → ℕ → ℕ)
    → ((x y : ℕ) → x < 2 → y < 2 → f x y < 2)
    → (n k a b : ℕ) → a < 2 ^ k
    → b < 2 ^ k
    → digits (λ c. c) f n a b < 2 ^ k
digits-lt f bit zero k a b p q = q
digits-lt f bit (suc n) k zero b p q = q
digits-lt f bit (suc n) zero (suc a) b p q = absurd (omega arith)
digits-lt f bit (suc n) (suc k) (suc a) b p q = omega (
  arith,
  digits-lt f bit n k (suc a / 2) (b / 2) (omega arith) (omega arith),
  bit (suc a % 2) (b % 2) (omega arith) (omega arith),
)

differ-lt : (x y : ℕ) → x < 2 → y < 2 → differ x y < 2
differ-lt zero y p q = q
differ-lt (suc x) zero p q = p
differ-lt (suc zero) (suc zero) p q = omega arith
differ-lt (suc zero) (suc (suc y)) p q = absurd (omega arith)
differ-lt (suc (suc x)) (suc y) p q = absurd (omega arith)

pub bit_or-lt : (k a b : ℕ) → a < 2 ^ k → b < 2 ^ k → bit_or a b < 2 ^ k
bit_or-lt k a b p q =
    omega (arith, bit_or-bitwise a b, digits-lt max (λ x y p q. omega arith) a k a b p q)

pub bit_xor-lt : (k a b : ℕ) → a < 2 ^ k → b < 2 ^ k → bit_xor a b < 2 ^ k
bit_xor-lt k a b p q = omega (arith, bit_xor-bitwise a b, digits-lt differ differ-lt a k a b p q)
