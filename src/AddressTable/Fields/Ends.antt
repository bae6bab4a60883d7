-- ===== src/AddressTable/Fields/Ends.antt =====
-- Taking a field of an entry of the table as a step that ends.
use ctp7_modules.Prelude.{ℕ, List, Option, none, some, get_elem?}
use ctp7_modules.Effect.{Bytes, fault}
use ctp7_modules.Effect.Ends.{Ends, bind-Ends, pure-Ends, stop-Ends}
use ctp7_modules.AddressTable.Hex.Ends.{stoull_hex-NotSpinning}
use ctp7_modules.AddressTable.Fields.{or_fault, table_field, hex_field}

module _ {S : Type 0} where
  or_fault-Ends : (o : Option Bytes) → Ends (or_fault {S = S} o)
  or_fault-Ends none = stop-Ends fault (record { not_spinning = λ p. cc })
  or_fault-Ends (some s) = pure-Ends s

  pub table_field-Ends : (tmp : List Bytes) (i : ℕ) → Ends (table_field {S = S} tmp i)
  unfolding table_field
  table_field-Ends tmp i = or_fault-Ends (get_elem? tmp i)

  pub hex_field-Ends : (tmp : List Bytes) (i : ℕ) → Ends (hex_field {S = S} tmp i)
  unfolding hex_field
  hex_field-Ends tmp i =
      search (bind-Ends, table_field-Ends, stop-Ends, stoull_hex-NotSpinning, pure-Ends) depth 8
