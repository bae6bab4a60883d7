-- ===== src/Register/Mask/Laws.antt =====
-- What masking and merging do, bit by bit for any mask, and as numbers for a field of `k` bits from
-- bit `s` up.
use native.Mathlib.Nat.{
  pow-suc, one-le-pow, div-div-eq-div-mul, mul_comm, mul-one, div-one, mul-le-mul_right,
  mul-div_left, mod-eq_of_lt,
}
use native.Mathlib.Decide.{dec_lt}
use ctp7_modules.Prelude.{
  ℕ, zero, suc, ◌+◌, ◌-◌, ◌*◌, ◌/◌, ◌%◌, ◌^◌, ◌<◌, ◌≤◌, bit_and, ◌==◌, if◌then◌else◌, ◌≡◌, arith,
  ap, sym, ◌∙◌,
}
use ctp7_modules.Prelude.Bits.{
  bit, bit-le-one, bit-bit_and, bit-bit_or, bit_ext, complement, bit-complement, bit_high,
  bit_and_half, bit_and_low, bit_and-one, bit_or-le-add, bit_and-le_right,
}
use ctp7_modules.Register.Mask.{align, apply_mask, count_shift, shift_amount, merge}

-- The field of `k` bits from bit `s` up.
abbrev pub field_mask : ℕ → ℕ → ℕ
field_mask k s = (2 ^ k - 1) * 2 ^ s

mul-pow-suc : (q s : ℕ) → q * 2 ^ suc s ≡ q * 2 ^ s * 2
mul-pow-suc q s = omega (arith, ap (λ (t : ℕ). q * t) (pow-suc 2 s))

div-pow-suc : (x s : ℕ) → x / 2 / 2 ^ s ≡ x / 2 ^ suc s
div-pow-suc x s =
    div-div-eq-div-mul x 2 (2 ^ s) ∙ ap (λ (t : ℕ). x / t) (mul_comm 2 (2 ^ s) ∙ sym (pow-suc 2 s))

pub bit_and_shifted : (s x m : ℕ) → bit_and x (m * 2 ^ s) ≡ bit_and (x / 2 ^ s) m * 2 ^ s
bit_and_shifted zero x m = rw (mul-one m, div-one x) (sym (mul-one (bit_and x m)))
bit_and_shifted (suc s) x m =
    let half : m * 2 ^ s * 2 / 2 ≡ m * 2 ^ s = omega arith in
    let even : m * 2 ^ s * 2 % 2 ≡ 0 = omega arith in
    rw
      (
        mul-pow-suc m s,
        bit_and_half x (m * 2 ^ s * 2),
        half,
        even,
        bit_and_shifted s (x / 2) m,
        div-pow-suc x s,
        mul-pow-suc (bit_and (x / 2 ^ suc s) m) s,
      )
      (omega arith)

align_shifted : (n s m r : ℕ) → s ≤ n → m % 2 ≡ 1 → align n (m * 2 ^ s) (r * 2 ^ s) ≡ r
unfolding align
align_shifted zero zero m r le odd = mul-one r
align_shifted zero (suc s) m r le odd = absurd (omega arith)
align_shifted (suc n) zero m r le odd = rw (mul-one m, mul-one r) (ground (arith, bit_and-one m))
align_shifted (suc n) (suc s) m r le odd =
    let half : m * 2 ^ s * 2 / 2 ≡ m * 2 ^ s = omega arith in
    let half_r : r * 2 ^ s * 2 / 2 ≡ r * 2 ^ s = omega arith in
    rw (mul-pow-suc m s, mul-pow-suc r s, half, half_r)
      (ground (arith, bit_and-one (m * 2 ^ s * 2), align_shifted n s m r))

count_shifted : (n s m a : ℕ) → s ≤ n → m % 2 ≡ 1 → count_shift n (m * 2 ^ s) a ≡ a + s
unfolding count_shift
count_shifted zero zero m a le odd = omega arith
count_shifted zero (suc s) m a le odd = absurd (omega arith)
count_shifted (suc n) zero m a le odd = rw (mul-one m) (ground (arith, bit_and-one m))
count_shifted (suc n) (suc s) m a le odd =
    let half : m * 2 ^ s * 2 / 2 ≡ m * 2 ^ s = omega arith in
    rw (mul-pow-suc m s, half)
      (ground (arith, bit_and-one (m * 2 ^ s * 2), count_shifted n s m (a + 1)))

-- Masking by `m` shifted up by `s`, `m` odd: shift down, then mask by `m`.
pub apply_mask_shifted :
    (s m x : ℕ) → s ≤ 32 → m % 2 ≡ 1 → apply_mask x (m * 2 ^ s) ≡ bit_and (x / 2 ^ s) m
unfolding apply_mask
apply_mask_shifted s m x le odd =
    rw (bit_and_shifted s x m) (align_shifted 32 s m (bit_and (x / 2 ^ s) m) le odd)

pub shift_amount_shifted : (s m : ℕ) → s ≤ 32 → m % 2 ≡ 1 → shift_amount (m * 2 ^ s) ≡ s
unfolding shift_amount
shift_amount_shifted s m le odd = count_shifted 32 s m 0 le odd ∙ omega arith

low_mask_odd : (k : ℕ) → 0 < k → (2 ^ k - 1) % 2 ≡ 1
low_mask_odd zero pos = absurd (omega arith)
low_mask_odd (suc k) pos = omega (arith, pow-suc 2 k, one-le-pow k 2)

-- applyMask by a field of k bits from bit s up takes the field out of the word.
pub apply_mask_field :
    (k s x : ℕ) → 0 < k → s ≤ 32 → apply_mask x (field_mask k s) ≡ x / 2 ^ s % 2 ^ k
apply_mask_field k s x pos le =
    apply_mask_shifted s (2 ^ k - 1) x le (low_mask_odd k pos) ∙ bit_and_low k (x / 2 ^ s)

-- The word that writeReg writes to a masked register has, bit by bit, the shifted value inside the
-- mask and the current word outside.
pub bit-merge :
    (i mask value current : ℕ)
    → i < 32
    → mask < 2 ^ 32
    → bit i (merge mask value current)
      ≡ (if bit i mask == 1 then bit i (value * 2 ^ shift_amount mask % 2 ^ 32) else bit i current)
unfolding merge
bit-merge i mask value current lt fits =
    let new = value * 2 ^ shift_amount mask % 2 ^ 32 in
    ground (
      arith,
      bit-bit_or i (bit_and new mask) (bit_and current (complement 32 mask)),
      bit-bit_and i new mask,
      bit-bit_and i current (complement 32 mask),
      bit-complement 32 i mask fits lt,
      bit-le-one i mask,
      bit-le-one i new,
      bit-le-one i current,
    )

-- Masking what was merged gives what was merged in.
bit_and-merge_bits :
    (i mask value current : ℕ)
    → mask < 2 ^ 32
    → bit i (bit_and (merge mask value current) mask)
      ≡ bit i (bit_and (value * 2 ^ shift_amount mask % 2 ^ 32) mask)
bit_and-merge_bits i mask value current fits =
    let new = value * 2 ^ shift_amount mask % 2 ^ 32 in
    elim (dec_lt i 32) [
      | yes low ↦ ground (
        arith,
        bit-bit_and i (merge mask value current) mask,
        bit-bit_and i new mask,
        bit-merge i mask value current low fits,
        bit-le-one i mask,
        bit-le-one i new,
        bit-le-one i current,
      )
      | no high ↦ omega (
        arith,
        bit-bit_and i (merge mask value current) mask,
        bit-bit_and i new mask,
        bit_high 32 i mask fits (omega arith),
      )
    ]

pub bit_and-merge :
    (mask value current : ℕ)
    → mask < 2 ^ 32
    → bit_and (merge mask value current) mask
      ≡ bit_and (value * 2 ^ shift_amount mask % 2 ^ 32) mask
bit_and-merge mask value current fits =
    bit_ext _ _ (λ i. bit_and-merge_bits i mask value current fits)

apply_mask_cong :
    (x y mask : ℕ) → bit_and x mask ≡ bit_and y mask → apply_mask x mask ≡ apply_mask y mask
unfolding apply_mask
apply_mask_cong x y mask e = ap (λ (t : ℕ). align 32 mask t) e

-- Masking a word into which a value was merged gives the value back, for a field of k bits from
-- bit s up and a value that fits it.
pub apply_mask-merge :
    (k s value current : ℕ)
    → 0 < k
    → s ≤ 32
    → field_mask k s < 2 ^ 32
    → value < 2 ^ k
    → apply_mask (merge (field_mask k s) value current) (field_mask k s) ≡ value
apply_mask-merge k s value current pos le fits small =
    let mask = field_mask k s in
    let shift : shift_amount mask ≡ s =
      shift_amount_shifted s (2 ^ k - 1) le (low_mask_odd k pos) in
    let below : value * 2 ^ s ≤ mask = mul-le-mul_right (2 ^ s) (omega arith) in
    let wide : value * 2 ^ s % 2 ^ 32 ≡ value * 2 ^ s = omega arith in
    apply_mask_cong (merge mask value current) (value * 2 ^ shift_amount mask % 2 ^ 32) mask
      (bit_and-merge mask value current fits)
    ∙ rw (shift, wide)
        (apply_mask_field k s (value * 2 ^ s) pos le
          ∙ rw (mul-div_left value (one-le-pow s 2 (omega arith))) (mod-eq_of_lt small))

-- What is written is a 32-bit word.
pub merge-lt : (mask value current : ℕ) → mask < 2 ^ 32 → merge mask value current < 2 ^ 32
unfolding merge
merge-lt mask value current fits =
    let new = value * 2 ^ shift_amount mask % 2 ^ 32 in
    omega (
      arith,
      bit_or-le-add (bit_and new mask) (bit_and current (complement 32 mask)),
      bit_and-le_right new mask,
      bit_and-le_right current (complement 32 mask),
    )
