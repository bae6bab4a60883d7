-- ===== src/Sca/Format.antt =====
-- `formatSCAData`: the bytes of a word in the other order.
use ctp7_modules.Prelude.{ℕ, ◌+◌, ◌*◌, ◌/◌, ◌%◌, ◌^◌, ◌<◌, ◌≡◌, arith, bit_and}
use ctp7_modules.Prelude.Bits.{bit_and_low}
use ctp7_modules.Register.Mask.Laws.{bit_and_shifted}

-- The sums and the shifts to the left are in `uint32_t`.
unfoldable pub format_sca_data : ℕ → ℕ
format_sca_data x =
    (bit_and x 0xff000000 / 2 ^ 24
      + bit_and (x / 2 ^ 8) 0x0000ff00
      + bit_and x 0x0000ff00 * 2 ^ 8 % 2 ^ 32
      + bit_and x 0x000000ff * 2 ^ 24 % 2 ^ 32)
    % 2 ^ 32

format_sum :
    (x : ℕ)
    → format_sca_data x
      ≡ (x / 2 ^ 24 % 256 + x / 2 ^ 16 % 256 * 2 ^ 8 + x / 2 ^ 8 % 256 * 2 ^ 16 + x % 256 * 2 ^ 24)
        % 2 ^ 32
unfolding format_sca_data
format_sum x = omega (
  arith,
  bit_and_shifted 24 x 255,
  bit_and_low 8 (x / 2 ^ 24),
  bit_and_shifted 8 (x / 2 ^ 8) 255,
  bit_and_low 8 (x / 2 ^ 8 / 2 ^ 8),
  bit_and_shifted 8 x 255,
  bit_and_low 8 (x / 2 ^ 8),
  bit_and_low 8 x,
)

-- formatSCAData reverses the four bytes of a word.
pub format_sca_data_reverses :
    (a b c d : ℕ)
    → a < 256
    → b < 256
    → c < 256
    → d < 256
    → format_sca_data (a + b * 2 ^ 8 + c * 2 ^ 16 + d * 2 ^ 24)
      ≡ d + c * 2 ^ 8 + b * 2 ^ 16 + a * 2 ^ 24
format_sca_data_reverses a b c d ha hb hc hd =
    omega (arith, format_sum (a + b * 2 ^ 8 + c * 2 ^ 16 + d * 2 ^ 24))

-- Formatting twice is the identity on words: what is sent and what is read use one function.
pub format_sca_data_involutive : (x : ℕ) → x < 2 ^ 32 → format_sca_data (format_sca_data x) ≡ x
format_sca_data_involutive x h = omega (arith, format_sum x, format_sum (format_sca_data x))
