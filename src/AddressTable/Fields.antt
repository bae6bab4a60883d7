-- ===== src/AddressTable/Fields.antt =====
-- `split` at a delimiter as `std::getline` does it, and the fields of a table entry.
pub mod Laws
pub mod Ends
use ctp7_modules.Prelude.{
  ℕ, ◌%◌, ◌^◌, List, [], ◌∷◌, ◌++◌, Option, none, some, true, false, ◌==◌, get_elem?, ◌≡◌, refl,
}
use ctp7_modules.Effect.{Bytes, M, fault, pure, stop, ◌>>=◌}
use ctp7_modules.AddressTable.Hex.{stoull_hex}

-- `item` is what `getline` has read so far. At the end of the text it fails if it has read nothing.
unfoldable pub cut : ℕ → Bytes → Bytes → List Bytes
cut delim [] [] = []
cut delim [] (c ∷ item) = (c ∷ item) ∷ []
cut delim (c ∷ s) item = elim (c == delim) [
  | true ↦ item ∷ cut delim s []
  | false ↦ cut delim s (item ++ c ∷ [])
]

unfoldable pub split : Bytes → ℕ → List Bytes
split s delim = cut delim s []

-- `tmp[i]`: undefined past the end.
abbrev or_fault : {S : Type 0} → Option Bytes → M S Bytes
or_fault none = stop fault
or_fault (some s) = pure s

unfoldable pub table_field : {S : Type 0} → List Bytes → ℕ → M S Bytes
table_field tmp i = or_fault (get_elem? tmp i)

-- `uint32_t x = stoull(tmp[i], nullptr, 16);`
unfoldable pub hex_field : {S : Type 0} → List Bytes → ℕ → M S ℕ
hex_field tmp i = do s ← table_field tmp i; v ← stop (stoull_hex s); pure (v % 2 ^ 32)
