-- ===== src/Register/Entry.antt =====
-- The register functions on a register that `update_address_table` has stored: the texts are gone,
-- and each function is said in terms of the node.
use ctp7_modules.Prelude.{ℕ, String, true, false, some, ◌==◌, ◌≡◌, refl}
use ctp7_modules.Effect.{Card, World, ◌>>=◌}
use ctp7_modules.Memhub.{memhub_read}
use ctp7_modules.AddressTable.{Node, serialize, table_field}
use ctp7_modules.AddressTable.RoundTrip.{
  IsEntry, split-serialize, hex_field_address, hex_field_mask,
}
use ctp7_modules.Register.Mask.{full_mask}
use ctp7_modules.Register.Access.{
  contains_byte, write_address, write_raw_address, read_address, read_tries, read_entry,
  masked_word, read_reg, write_reg, write_masked,
}

module _ {S : Type 0} (card : Card S) (n : Node) (e : IsEntry n) where
  pub write_address_entry :
      (v : ℕ) (w : World S)
      → write_address card (serialize n) v w ≡ write_raw_address card n.real_address v w
  unfolding write_address
  write_address_entry v w = rw (split-serialize n e, hex_field_address n e w)

  pub read_address_entry :
      (w : World S) → read_address card (serialize n) w ≡ read_tries card 9 n.real_address w
  unfolding read_address
  read_address_entry w = rw (split-serialize n e, hex_field_address n e w)

  pub read_reg_entry :
      (name : String) (w : World S)
      → card.dbi name ≡ some (serialize n)
      → contains_byte b'r' n.permission ≡ true
      → read_reg card name w ≡ (memhub_read card n.real_address 1 >>= masked_word n.mask) w
  unfolding read_reg read_entry table_field
  read_reg_entry name w found readable = rw (
    found,
    read_reg,
    split-serialize n e,
    readable,
    hex_field_address n e w,
    hex_field_mask n e w,
  )

  pub write_reg_plain :
      (name : String) (v : ℕ) (w : World S)
      → card.dbi name ≡ some (serialize n)
      → (n.mask == full_mask) ≡ true
      → write_reg card name v w ≡ write_raw_address card n.real_address v w
  unfolding write_reg
  write_reg_plain name v w found full =
      rw (found, write_reg, split-serialize n e, hex_field_mask n e w, full)
        (write_address_entry v w)

  pub write_reg_masked :
      (name : String) (v : ℕ) (w : World S)
      → card.dbi name ≡ some (serialize n)
      → (n.mask == full_mask) ≡ false
      → write_reg card name v w ≡ write_masked card name (serialize n) n.mask v w
  unfolding write_reg
  write_reg_masked name v w found partial =
      rw (found, write_reg, split-serialize n e, hex_field_mask n e w, partial) refl
