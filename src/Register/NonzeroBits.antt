-- ===== src/Register/NonzeroBits.antt =====
-- `getNumNonzeroBits` of src/utils.cpp, which is meant to count the bits that are set.
use native.Mathlib.Nat.{pow-suc}
use ctp7_modules.Prelude.{
  ℕ, zero, suc, ◌+◌, ◌%◌, ◌^◌, ◌<◌, bit_and, ◌≡◌, ◌≢◌, refl, arith, ◌∙◌, ne→==_false,
}
use ctp7_modules.Prelude.Bits.{bit, bit-bit_and, bit_and-one}
use ctp7_modules.Register.Mask.{count_bits, num_nonzero_bits}

even_power : (k : ℕ) → bit 0 (2 ^ suc k) ≡ 0
even_power k = omega (arith, pow-suc 2 k)

-- A masked value without bit 0 is not 1.
masked-ne-one : (v k : ℕ) → bit_and v (2 ^ suc k) ≢ 1
masked-ne-one v k one = omega (arith, bit-bit_and 0 v (2 ^ suc k), even_power k)

count_bits-rest : (n i v c : ℕ) → 0 < i → count_bits n i v c ≡ c
unfolding count_bits
count_bits-rest zero i v c pos = refl
count_bits-rest (suc n) zero v c pos = absurd (omega arith)
count_bits-rest (suc n) (suc i) v c pos =
    rw (ne→==_false (bit_and v (2 ^ suc i)) 1 (masked-ne-one v i))
      (count_bits-rest n (suc i + 1) v c (omega arith))

-- getNumNonzeroBits gives the lowest bit of the value.
pub num_nonzero_bits_lem : (v : ℕ) → num_nonzero_bits v ≡ v % 2
unfolding num_nonzero_bits count_bits
num_nonzero_bits_lem v = rw (bit_and-one v) (count_bits-rest 31 1 v _ (omega arith) ∙ ground arith)
