-- ===== src/Examples/Tests.antt =====
-- Definitions run on concrete inputs.
use ctp7_modules.Prelude.{[], ◌∷◌, ◌≡◌, refl}
use ctp7_modules.Effect.{ok}
use ctp7_modules.AddressTable.Hex.{hex_digits, hex_digit, digit_value}
use ctp7_modules.AddressTable.Fields.{cut}
use ctp7_modules.Names.{decimal, ◌◇◌}
use ctp7_modules.AddressTable.{hex, stoull_hex, split}
use ctp7_modules.Register.{apply_mask, merge, num_nonzero_bits}

decimal_test : "OH" ◇ decimal 11 ◇ ".VFAT" ◇ decimal 0 ≡ "OH11.VFAT0"
unfolding decimal
decimal_test = refl

hex_test : hex 0xdeaddead ≡ b'd' ∷ b'e' ∷ b'a' ∷ b'd' ∷ b'd' ∷ b'e' ∷ b'a' ∷ b'd' ∷ []
unfolding hex hex_digits hex_digit
hex_test = refl

stoull_test : stoull_hex (b' ' ∷ b'0' ∷ b'X' ∷ b'1' ∷ b'F' ∷ b'g' ∷ []) ≡ ok 0x1f
unfolding stoull_hex digit_value
stoull_test = refl

split_test :
    split (b'a' ∷ b'|' ∷ b'|' ∷ b'b' ∷ b'|' ∷ []) b'|' ≡ (b'a' ∷ []) ∷ [] ∷ (b'b' ∷ []) ∷ []
unfolding split cut
split_test = refl

apply_mask_test : apply_mask 0xabcd1234 0x00ffff00 ≡ 0xcd12
unfolding apply_mask
apply_mask_test = refl

merge_test : merge 0x00ffff00 0xfeed 0xabcd1234 ≡ 0xabfeed34
unfolding merge
merge_test = refl

num_nonzero_bits_test : num_nonzero_bits 0xffff ≡ 1
unfolding num_nonzero_bits
num_nonzero_bits_test = refl
