-- ===== src/AddressTable/Hex/Ends.antt =====
-- `stoull` as a step that ends.
use ctp7_modules.Prelude.{Bool, false, [], ◌∷◌}
use ctp7_modules.Effect.{Bytes}
use ctp7_modules.Effect.Ends.{NotSpinning, if-NotSpinning, ok-NotSpinning, throw-NotSpinning}
use ctp7_modules.AddressTable.Hex.{unsigned, signed, stoull_hex, skip_spaces}

unsigned-NotSpinning : (negative : Bool) (s : Bytes) → NotSpinning (unsigned negative s)
unfolding unsigned
unsigned-NotSpinning negative s = search (if-NotSpinning, ok-NotSpinning, throw-NotSpinning)

signed-NotSpinning : (s : Bytes) → NotSpinning (signed s)
unfolding signed
signed-NotSpinning [] = unsigned-NotSpinning false []
signed-NotSpinning (c ∷ s) = search (if-NotSpinning, unsigned-NotSpinning)

pub stoull_hex-NotSpinning : (s : Bytes) → NotSpinning (stoull_hex s)
unfolding stoull_hex
stoull_hex-NotSpinning s = signed-NotSpinning (skip_spaces s)
