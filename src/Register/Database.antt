-- ===== src/Register/Database.antt =====
-- `update_address_table`, and then `readRegFromDB`.
use ctp7_modules.Prelude.{String, Option, some, ◌∷◌, ◌≡◌, ◌≢◌, refl}
use ctp7_modules.Effect.{Card, World, Request, ok, set_word, set_bytes, ◌>>=◌}
use ctp7_modules.AddressTable.{Node, serialize, table_field}
use ctp7_modules.AddressTable.RoundTrip.{
  IsEntry, split-serialize, hex_field_address, hex_field_mask, hex_field_size,
}
use ctp7_modules.AddressTable.Update.{
  Nodes, find, IsMap, update_address_table, updated, update_address_table_parsed, updated-entry,
}
use ctp7_modules.Register.Access.{read_reg_from_db}

module _ {S : Type 0} where
  read_reg_from_db-entry :
      (card : Card S) (n : Node) (e : IsEntry n) (q : Request) (w : World S)
      → card.dbi (q.string "reg_name") ≡ some (serialize n)
      → read_reg_from_db card q w ≡ (
        ok tt,
        record w {
          reply =
              set_word "size" n.size
              ∷ set_word "mask" n.mask
              ∷ set_word "address" n.real_address
              ∷ set_bytes "mode" n.mode
              ∷ set_bytes "permissions" n.permission
              ∷ w.reply;
        },
      )
  unfolding read_reg_from_db table_field
  read_reg_from_db-entry card n e q w found =
      rw
        (
          found,
          read_reg_from_db,
          split-serialize n e,
          hex_field_address n e w,
          hex_field_mask n e w,
          hex_field_size n e w,
        )
        refl

  -- After update_address_table from an XML file that parses, readRegFromDB answers, for each node
  -- of the file but "top" whose numbers are 32-bit and whose texts hold no delimiter, with exactly
  -- the properties of the node.
  pub read_reg_from_db-update_address_table :
      (parse : String → Option Nodes) (card : Card S) (request q : Request) (nodes : Nodes)
      (n : Node) (w : World S)
      → parse (request.string "at_xml") ≡ some nodes
      → IsMap nodes
      → find nodes (q.string "reg_name") ≡ some n
      → q.string "reg_name" ≢ "top"
      → IsEntry n
      → (update_address_table parse card request >>= (λ card'. read_reg_from_db card' q)) w ≡ (
        ok tt,
        record w {
          reply =
              set_word "size" n.size
              ∷ set_word "mask" n.mask
              ∷ set_word "address" n.real_address
              ∷ set_bytes "mode" n.mode
              ∷ set_bytes "permissions" n.permission
              ∷ w.reply;
        },
      )
  read_reg_from_db-update_address_table parse card request q nodes n w parsed keys there ne e =
      rw (update_address_table_parsed parse card request nodes parsed keys w) (
        read_reg_from_db-entry (updated parse card request nodes parsed keys) n e q w
          (updated-entry parse card request nodes parsed keys (q.string "reg_name") n ne there))
