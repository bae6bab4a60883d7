-- ===== src/AddressTable/RoundTrip.antt =====
-- `serialize`, and then the reading of the fields, in src/utils.cpp.
use ctp7_modules.Prelude.{◌^◌, ◌<◌, List, [], ◌∷◌, ◌≡◌, arith}
use ctp7_modules.Effect.{Bytes, World, ok}
use ctp7_modules.AddressTable.{Node, serialize, hex, split, table_field, hex_field}
use ctp7_modules.AddressTable.Hex.Laws.{hex-Lacks, hex-ne-nil, stoull_hex-hex}
use ctp7_modules.AddressTable.Fields.Laws.{Lacks, split_word, split_last}

-- The address table's numbers are `uint32_t`, and no text of it holds the delimiter.
pub record IsEntry (n : Node) : Type 0 where
  pub address_fits : n.real_address < 2 ^ 32
  pub mask_fits : n.mask < 2 ^ 32
  pub size_fits : n.size < 2 ^ 32
  pub plain_permission : Lacks b'|' n.permission
  pub plain_mode : Lacks b'|' n.mode

abbrev pub columns : Node → List Bytes
columns n = hex n.real_address ∷ n.permission ∷ hex n.mask ∷ n.mode ∷ hex n.size ∷ []

-- For a node without the delimiter in its texts, splitting what serialize wrote gives its five
-- columns.
pub split-serialize : (n : Node) → IsEntry n → split (serialize n) b'|' ≡ columns n
unfolding serialize
split-serialize n e = rw (
  split_word b'|' (hex n.real_address) _ (hex-Lacks n.real_address),
  split_word b'|' n.permission _ e.plain_permission,
  split_word b'|' (hex n.mask) _ (hex-Lacks n.mask),
  split_word b'|' n.mode _ e.plain_mode,
  split_last b'|' (hex n.size) (hex-Lacks n.size) (hex-ne-nil n.size),
)

module _ {S : Type 0} (n : Node) (e : IsEntry n) (w : World S) where
  pub hex_field_address : hex_field (columns n) 0 w ≡ (ok n.real_address, w)
  unfolding hex_field table_field
  hex_field_address = rw (stoull_hex-hex n.real_address e.address_fits) (ground arith)

  pub hex_field_mask : hex_field (columns n) 2 w ≡ (ok n.mask, w)
  unfolding hex_field table_field
  hex_field_mask = rw (stoull_hex-hex n.mask e.mask_fits) (ground arith)

  pub hex_field_size : hex_field (columns n) 4 w ≡ (ok n.size, w)
  unfolding hex_field table_field
  hex_field_size = rw (stoull_hex-hex n.size e.size_fits) (ground arith)
