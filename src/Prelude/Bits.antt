-- ===== src/Prelude/Bits.antt =====
-- Bits of a number, and the laws of `&`, `|`, `~` and the shifts bit by bit.
mod Digits
pub use Digits.{bit_and_half, bit_or_half, zero-bit_or}
use Prim.Native.Nat.{
  ℕ, zero, suc, ◌+◌, ◌-◌, ◌*◌, ◌/◌, ◌%◌, ◌^◌, ◌≤◌, ◌<◌, min, max, bit_and, bit_or,
}
use mathlib.Core.Path.{◌≡◌, refl, ap, ◌∙◌}
use native.Mathlib.Omega.{arith}
use native.Mathlib.Nat.{pow-suc, one-le-pow, div-div-eq-div-mul, div-add-mod, mul_comm}

-- Bit `i` of `x`, as 0 or 1.
abbrev pub bit : ℕ → ℕ → ℕ
bit zero x = x % 2
bit (suc i) x = bit i (x / 2)

pub bit-le-one : (i x : ℕ) → bit i x ≤ 1
bit-le-one zero x = omega arith
bit-le-one (suc i) x = bit-le-one i (x / 2)

pub bit-zero : (i : ℕ) → bit i 0 ≡ 0
bit-zero zero = refl
bit-zero (suc i) = bit-zero i

pub bit_and_div_two : (a b : ℕ) → bit_and a b / 2 ≡ bit_and (a / 2) (b / 2)
bit_and_div_two a b = omega (arith, bit_and_half a b)

pub bit_or_div_two : (a b : ℕ) → bit_or a b / 2 ≡ bit_or (a / 2) (b / 2)
bit_or_div_two a b = omega (arith, bit_or_half a b)

pub bit-bit_and : (i a b : ℕ) → bit i (bit_and a b) ≡ min (bit i a) (bit i b)
bit-bit_and zero a b = omega (arith, bit_and_half a b)
bit-bit_and (suc i) a b = rw bit_and_div_two (bit-bit_and i (a / 2) (b / 2))

pub bit-bit_or : (i a b : ℕ) → bit i (bit_or a b) ≡ max (bit i a) (bit i b)
bit-bit_or zero a b = omega (arith, bit_or_half a b)
bit-bit_or (suc i) a b = rw bit_or_div_two (bit-bit_or i (a / 2) (b / 2))

-- Numbers with the same bits are equal.
bit_ext_fuel : (f a b : ℕ) → a ≤ f → b ≤ f → ((i : ℕ) → bit i a ≡ bit i b) → a ≡ b
bit_ext_fuel zero a b p q h = omega arith
bit_ext_fuel (suc f) a b p q h =
    let rest = bit_ext_fuel f (a / 2) (b / 2) (omega arith) (omega arith) (λ i. h (suc i)) in
    omega (arith, h 0)

pub bit_ext : (a b : ℕ) → ((i : ℕ) → bit i a ≡ bit i b) → a ≡ b
bit_ext a b h = bit_ext_fuel (a + b) a b (omega arith) (omega arith) h

-- `~m` in `n` bits.
abbrev pub complement : ℕ → ℕ → ℕ
complement n m = 2 ^ n - 1 - m

pub bit-complement : (n i m : ℕ) → m < 2 ^ n → i < n → bit i (complement n m) + bit i m ≡ 1
bit-complement zero i m h lt = absurd (omega arith)
bit-complement (suc n) zero m h lt = omega (arith, pow-suc 2 n, one-le-pow n 2)
bit-complement (suc n) (suc i) m h lt =
    let half : complement (suc n) m / 2 ≡ complement n (m / 2) =
      omega (arith, pow-suc 2 n, one-le-pow n 2) in
    rw half (bit-complement n i (m / 2) (omega (arith, pow-suc 2 n)) (omega arith))

-- A number below `2 ^ n` has no bit from `n` on.
pub bit_high : (n i m : ℕ) → m < 2 ^ n → n ≤ i → bit i m ≡ 0
bit_high zero i m h le = let e : m ≡ 0 = omega arith in rw e (bit-zero i)
bit_high (suc n) zero m h le = absurd (omega arith)
bit_high (suc n) (suc i) m h le = bit_high n i (m / 2) (omega (arith, pow-suc 2 n)) (omega arith)

bit_and-zero_fuel : (f a : ℕ) → a ≤ f → bit_and a 0 ≡ 0
bit_and-zero_fuel zero a p = let e : a ≡ 0 = omega arith in rw e
bit_and-zero_fuel (suc f) a p =
    omega (arith, bit_and_half a 0, bit_and-zero_fuel f (a / 2) (omega arith))

pub bit_and-zero : (a : ℕ) → bit_and a 0 ≡ 0
bit_and-zero a = bit_and-zero_fuel a a (omega arith)

bit_and-le_fuel : (f a b : ℕ) → b ≤ f → bit_and a b ≤ b
bit_and-le_fuel zero a b p = let e : b ≡ 0 = omega arith in rw e (omega (arith, bit_and-zero a))
bit_and-le_fuel (suc f) a b p =
    omega (arith, bit_and_half a b, bit_and-le_fuel f (a / 2) (b / 2) (omega arith))

pub bit_and-le_right : (a b : ℕ) → bit_and a b ≤ b
bit_and-le_right a b = bit_and-le_fuel b a b (omega arith)

-- Two doublings of a remainder.
pub mod_double : (p a : ℕ) → 0 < p → a % (p * 2) ≡ a / 2 % p * 2 + a % 2
mod_double p a h =
    let split : p * (a / 2 / p) ≡ p * (a / (p * 2)) =
      ap (λ (t : ℕ). p * t) (div-div-eq-div-mul a 2 p ∙ ap (λ (t : ℕ). a / t) (mul_comm 2 p)) in
    omega (arith, split, div-add-mod (a / 2) p, div-add-mod a (p * 2))

-- A mask of `k` low bits is the remainder by `2 ^ k`.
pub bit_and_low : (k a : ℕ) → bit_and a (2 ^ k - 1) ≡ a % 2 ^ k
bit_and_low zero a = omega (arith, bit_and-zero a)
bit_and_low (suc k) a =
    let half : (2 ^ suc k - 1) / 2 ≡ 2 ^ k - 1 = omega (arith, pow-suc 2 k, one-le-pow k 2) in
    let odd : (2 ^ suc k - 1) % 2 ≡ 1 = omega (arith, pow-suc 2 k, one-le-pow k 2) in
    rw
      (
        bit_and_half a (2 ^ suc k - 1),
        half,
        odd,
        bit_and_low k (a / 2),
        pow-suc 2 k,
        mod_double (2 ^ k) a (one-le-pow k 2 (omega arith)),
      )
      (omega arith)

-- `x & 1` is the lowest bit.
pub bit_and-one : (a : ℕ) → bit_and a 1 ≡ a % 2
bit_and-one a = bit_and_low 1 a

bit_or-le_fuel : (f a b : ℕ) → a ≤ f → bit_or a b ≤ a + b
bit_or-le_fuel zero a b p = let e : a ≡ 0 = omega arith in rw (e, zero-bit_or b) (omega arith)
bit_or-le_fuel (suc f) a b p =
    omega (arith, bit_or_half a b, bit_or-le_fuel f (a / 2) (b / 2) (omega arith))

pub bit_or-le-add : (a b : ℕ) → bit_or a b ≤ a + b
bit_or-le-add a b = bit_or-le_fuel a a b (omega arith)

-- A power of two, added to a number below it, sets one bit.
pub bit_add_below : (i v m : ℕ) → i < v → bit i (m + 2 ^ v) ≡ bit i m
bit_add_below i zero m lt = absurd (omega arith)
bit_add_below zero (suc v) m lt = omega (arith, pow-suc 2 v)
bit_add_below (suc i) (suc v) m lt =
    let half : (m + 2 ^ suc v) / 2 ≡ m / 2 + 2 ^ v = omega (arith, pow-suc 2 v) in
    rw half (bit_add_below i v (m / 2) (omega arith))

pub bit_add_at : (v m : ℕ) → m < 2 ^ v → bit v (m + 2 ^ v) ≡ 1
bit_add_at zero m lt = omega arith
bit_add_at (suc v) m lt =
    let half : (m + 2 ^ suc v) / 2 ≡ m / 2 + 2 ^ v = omega (arith, pow-suc 2 v) in
    rw half (bit_add_at v (m / 2) (omega (arith, pow-suc 2 v)))
