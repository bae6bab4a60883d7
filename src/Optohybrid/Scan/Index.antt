-- ===== src/Optohybrid/Scan/Index.antt =====
-- The index of an ultra scan's results in their array.
use native.Mathlib.Nat.{
  mul-le-mul_left, mul-le-mul_right, mul_assoc, mul-div_cancel, add-mul-div_right, div-eq_of_lt,
}
use ctp7_modules.Prelude.{sym, ap, ◌∙◌, ℕ, ◌+◌, ◌-◌, ◌*◌, ◌/◌, ◌%◌, ◌^◌, ◌<◌, ◌≤◌, ◌≡◌, arith}
use ctp7_modules.Optohybrid.Scan.{points, result_size, result_index}

index-le :
    (vfatN rounds k dacStep : ℕ)
    → 0 < dacStep
    → k < rounds
    → vfatN * rounds + k ≤ vfatN * (rounds * dacStep) + rounds * dacStep
index-le vfatN rounds k dacStep pos le =
    let wide : rounds * 1 ≤ rounds * dacStep = mul-le-mul_left rounds pos in
    let wider : vfatN * rounds ≤ vfatN * (rounds * dacStep) = mul-le-mul_left vfatN (omega arith) in
    omega arith

-- Where the step divides the range, the index is that of a row for each VFAT.
result_index-rows :
    (dacMin dacStep rounds vfatN k : ℕ)
    → 0 < dacStep
    → dacMin + rounds * dacStep ≤ 2 ^ 32
    → 24 * (rounds * dacStep) < 2 ^ 32
    → vfatN < 24
    → k < rounds
    → result_index dacMin (dacMin + rounds * dacStep - 1) dacStep vfatN (dacMin + k * dacStep)
      ≡ vfatN * rounds + k
unfolding result_index points
result_index-rows dacMin dacStep rounds vfatN k pos fits small lt le =
    let width = rounds * dacStep in
    let row_fits : (k + 1) * dacStep ≤ width = mul-le-mul_right dacStep (omega arith) in
    let column : (k + 1) * dacStep ≡ k * dacStep + dacStep = grind arith in
    let row : vfatN * width ≤ 23 * width = mul-le-mul_right width (omega arith) in
    let flat : vfatN * width ≡ vfatN * rounds * dacStep = sym (mul_assoc vfatN rounds dacStep) in
    let whole : (dacMin + width - 1 + 2 ^ 32 - dacMin + 1) % 2 ^ 32 ≡ width = omega arith in
    let offset : (dacMin + k * dacStep + 2 ^ 32 - dacMin) % 2 ^ 32 ≡ k * dacStep = omega arith in
    let start : vfatN * width % 2 ^ 32 ≡ vfatN * rounds * dacStep = omega arith in
    let index_fits : vfatN * rounds + k ≤ vfatN * width + width =
      index-le vfatN rounds k dacStep pos le in
    rw (whole, start, offset, mul-div_cancel (vfatN * rounds) pos, mul-div_cancel k pos)
      (omega arith)

pub result_size-rows :
    (dacMin dacStep rounds : ℕ)
    → 0 < dacStep
    → dacMin + rounds * dacStep ≤ 2 ^ 32
    → 24 * (rounds * dacStep) < 2 ^ 32
    → 0 < rounds
    → result_size dacMin (dacMin + rounds * dacStep - 1) dacStep ≡ 24 * rounds
unfolding result_size points
result_size-rows dacMin dacStep rounds pos fits small positive =
    let width = rounds * dacStep in
    let wide : 1 * dacStep ≤ width = mul-le-mul_right dacStep positive in
    let whole : (dacMin + width - 1 + 2 ^ 32 - dacMin + 1) % 2 ^ 32 ≡ width = omega arith in
    let flat : 24 * width ≡ 24 * rounds * dacStep = sym (mul_assoc 24 rounds dacStep) in
    let area : 24 * width % 2 ^ 32 ≡ 24 * rounds * dacStep = omega arith in
    rw (whole, area) (mul-div_cancel (24 * rounds) pos)

row_of : (rounds vfatN k : ℕ) → k < rounds → (vfatN * rounds + k) / rounds ≡ vfatN
row_of rounds vfatN k le =
    let swapped : vfatN * rounds + k ≡ k + vfatN * rounds = omega arith in
    let pos : 0 < rounds = omega arith in
    rw (swapped, add-mul-div_right k vfatN pos, div-eq_of_lt le) (omega arith)

rows_apart :
    (rounds vfatN k vfatN' k' : ℕ)
    → k < rounds
    → k' < rounds
    → vfatN * rounds + k ≡ vfatN' * rounds + k'
    → (vfatN ≡ vfatN') × (k ≡ k')
rows_apart rounds vfatN k vfatN' k' le le' same =
    let row = row_of rounds vfatN k le in
    let row' = row_of rounds vfatN' k' le' in
    let rows : vfatN ≡ vfatN' = sym row ∙ ap (λ (n : ℕ). n / rounds) same ∙ row' in
    (rows, omega (arith, same, ap (λ (n : ℕ). n * rounds) rows))

pub result_size-wide :
    (dacMin dacMax dacStep : ℕ)
    → dacMin ≤ dacMax
    → dacMax < 2 ^ 32
    → 24 * (dacMax - dacMin + 1) < dacStep
    → dacStep < 2 ^ 32
    → result_size dacMin dacMax dacStep ≡ 0
unfolding result_size points
result_size-wide dacMin dacMax dacStep le fits wide step_fits =
    let width : (dacMax + 2 ^ 32 - dacMin + 1) % 2 ^ 32 ≡ dacMax - dacMin + 1 = omega arith in
    let area : 24 * (dacMax - dacMin + 1) % 2 ^ 32 ≡ 24 * (dacMax - dacMin + 1) = omega arith in
    rw (width, area) (div-eq_of_lt wide)

-- If the step divides the range and the sums stay within 32 bits, the index of each result is
-- within the array, and different VFATs or points have different indices.
pub result_index-fits :
    (dacMin dacStep rounds vfatN k vfatN' k' : ℕ)
    → 0 < dacStep
    → dacMin + rounds * dacStep ≤ 2 ^ 32
    → 24 * (rounds * dacStep) < 2 ^ 32
    → vfatN < 24
    → k < rounds
    → vfatN' < 24
    → k' < rounds
    → (result_index dacMin (dacMin + rounds * dacStep - 1) dacStep vfatN (dacMin + k * dacStep)
        < result_size dacMin (dacMin + rounds * dacStep - 1) dacStep)
      × (result_index dacMin (dacMin + rounds * dacStep - 1) dacStep vfatN (dacMin + k * dacStep)
            ≡ result_index dacMin
                (dacMin + rounds * dacStep - 1)
                dacStep
                vfatN'
                (dacMin + k' * dacStep)
          → (vfatN ≡ vfatN') × (k ≡ k'))
result_index-fits dacMin dacStep rounds vfatN k vfatN' k' pos fits small lt le lt' le' =
    let at_k = result_index-rows dacMin dacStep rounds vfatN k pos fits small lt le in
    let at_k' = result_index-rows dacMin dacStep rounds vfatN' k' pos fits small lt' le' in
    let size = result_size-rows dacMin dacStep rounds pos fits small (omega arith) in
    let row : (vfatN + 1) * rounds ≤ 24 * rounds = mul-le-mul_right rounds (omega arith) in
    let last : (vfatN + 1) * rounds ≡ vfatN * rounds + rounds = grind arith in
    (
      rw (at_k, size) (omega arith),
      λ same. rows_apart rounds vfatN k vfatN' k' le le' (rw (at_k, at_k') at same),
    )
