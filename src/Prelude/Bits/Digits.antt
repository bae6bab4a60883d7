-- ===== src/Prelude/Bits/Digits.antt =====
-- `&` and `|` take the lowest digit apart: what the native operations mean, without their fuel.
use Prim.Native.Nat.{
  ℕ, zero, suc, ◌+◌, ◌*◌, ◌/◌, ◌%◌, ◌≤◌, min, max, bit_and, bit_or, digits, bit_and-bitwise,
  bit_or-bitwise,
}
use mathlib.Core.Path.{◌≡◌, refl}
use native.Mathlib.Omega.{arith}

-- With enough fuel the amount does not matter.
module _ (rest : ℕ → ℕ) (op : ℕ → ℕ → ℕ) where
  digits_enough : (f g a b : ℕ) → a ≤ f → a ≤ g → digits rest op f a b ≡ digits rest op g a b
  digits_enough zero zero a b p q = refl
  digits_enough zero (suc g) zero b p q = refl
  digits_enough zero (suc g) (suc a) b p q = absurd (omega arith)
  digits_enough (suc f) zero zero b p q = refl
  digits_enough (suc f) (suc g) zero b p q = refl
  digits_enough (suc f) zero (suc a) b p q = absurd (omega arith)
  digits_enough (suc f) (suc g) (suc a) b p q =
      omega (arith, digits_enough f g (suc a / 2) (b / 2) (omega arith) (omega arith))

zero-bit_and : (b : ℕ) → bit_and 0 b ≡ 0
zero-bit_and b = bit_and-bitwise 0 b

pub zero-bit_or : (b : ℕ) → bit_or 0 b ≡ b
zero-bit_or b = bit_or-bitwise 0 b

pub bit_and_half : (a b : ℕ) → bit_and a b ≡ bit_and (a / 2) (b / 2) * 2 + min (a % 2) (b % 2)
bit_and_half zero b = omega (arith, zero-bit_and b, zero-bit_and (b / 2))
bit_and_half (suc a) b = omega (
  arith,
  bit_and-bitwise (suc a) b,
  bit_and-bitwise (suc a / 2) (b / 2),
  digits_enough (λ y. zero) min a (suc a / 2) (suc a / 2) (b / 2) (omega arith) (omega arith),
)

pub bit_or_half : (a b : ℕ) → bit_or a b ≡ bit_or (a / 2) (b / 2) * 2 + max (a % 2) (b % 2)
bit_or_half zero b = omega (arith, zero-bit_or b, zero-bit_or (b / 2))
bit_or_half (suc a) b = omega (
  arith,
  bit_or-bitwise (suc a) b,
  bit_or-bitwise (suc a / 2) (b / 2),
  digits_enough (λ y. y) max a (suc a / 2) (suc a / 2) (b / 2) (omega arith) (omega arith),
)
