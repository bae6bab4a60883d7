-- ===== src/AddressTable.antt =====
-- The address table of src/utils.cpp: how `update_address_table` writes a register's properties as
-- a text, and how the register functions read that text back. Texts are lists of bytes.
pub mod Hex
pub mod Fields
pub mod RoundTrip
pub mod Update
unfoldable pub use Hex.{hex, stoull_hex}
unfoldable pub use Fields.{split, table_field, hex_field}
use ctp7_modules.Prelude.{ℕ, List, ◌∷◌, [], ◌++◌}
use ctp7_modules.Effect.{Bytes}

-- `xhal::utils::Node`, the fields that are stored.
pub record Node : Type 0 where
  pub real_address : ℕ
  pub permission : Bytes
  pub mask : ℕ
  pub mode : Bytes
  pub size : ℕ

unfoldable pub serialize : Node → Bytes
serialize n =
    hex n.real_address
    ++ b'|' ∷ (n.permission ++ b'|' ∷ (hex n.mask ++ b'|' ∷ (n.mode ++ b'|' ∷ hex n.size)))
