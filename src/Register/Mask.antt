-- ===== src/Register/Mask.antt =====
-- `applyMask`, the mask arithmetic of `writeReg`, and `getNumNonzeroBits`.
pub mod Laws
use ctp7_modules.Prelude.{
  ℕ, zero, suc, ◌+◌, ◌*◌, ◌/◌, ◌%◌, ◌^◌, bit_and, bit_or, ◌==◌, if◌then◌else◌, ◌≡◌, refl,
}
use ctp7_modules.Prelude.Bits.{complement}

-- The value that stands for a failed read.
abbrev pub dead : ℕ
dead = 0xdeaddead

abbrev pub full_mask : ℕ
full_mask = 0xFFFFFFFF

-- The loop of `applyMask`, with the rounds left: both are shifted until the mask is odd.
pub align : ℕ → ℕ → ℕ → ℕ
align zero mask result = result
align (suc n) mask result =
    let shifted = align n (mask / 2) (result / 2) in if bit_and mask 1 == 0 then shifted else result

unfoldable pub apply_mask : ℕ → ℕ → ℕ
unfolding align
apply_mask value mask = align 32 mask (bit_and value mask)

-- The loop of `writeReg` that counts the zeros below the mask.
pub count_shift : ℕ → ℕ → ℕ → ℕ
count_shift zero mask amount = amount
count_shift (suc n) mask amount =
    let rest = count_shift n (mask / 2) (amount + 1) in if bit_and mask 1 == 0 then rest else amount

unfoldable pub shift_amount : ℕ → ℕ
unfolding count_shift
shift_amount mask = count_shift 32 mask 0

-- `(value << shift_amount & mask) | (current & ~mask)`. A shift by 32, which the mask 0 asks for, is
-- undefined in C++; whatever it gives is masked out.
unfoldable pub merge : ℕ → ℕ → ℕ → ℕ
unfolding shift_amount
merge mask value current =
    let val_to_write = value * 2 ^ shift_amount mask % 2 ^ 32 in
    bit_or (bit_and val_to_write mask) (bit_and current (complement 32 mask))

-- The loop of `getNumNonzeroBits` at bit `i`, with the rounds left.
unfoldable pub count_bits : ℕ → ℕ → ℕ → ℕ → ℕ
count_bits zero i value count = count
count_bits (suc n) i value count =
    count_bits n (i + 1) value (if bit_and value (2 ^ i) == 1 then count + 1 else count)

unfoldable pub num_nonzero_bits : ℕ → ℕ
unfolding count_bits
num_nonzero_bits value = count_bits 32 0 value 0
