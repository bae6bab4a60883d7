-- ===== src/BlasterRam/Refusals.antt =====
-- The blobs and the types that src/amc/blaster_ram.cpp refuses.
use ctp7_modules.Prelude.{ℕ, [], ◌∷◌, ◌≡◌}
use ctp7_modules.Effect.{
  Card, World, Request, get_word, Exn, Message, caught, fmt, ok, throw, set_string,
}
use ctp7_modules.BlasterRam.Size.{BlasterType, of_code, get_ram_max_size, check_blob_size}
use ctp7_modules.BlasterRam.Write.{require_exact, write_conf_ram_local}
use ctp7_modules.BlasterRam.Handlers.{catching, read_conf_ram, write_conf_ram}

module _ {S : Type 0} (card : Card S) where
  -- For a type of RAM that is none of the four, writeConfRAM answers with an error, while from
  -- readConfRAM the exception escapes.
  pub conf_ram-unknown_type :
      (q : Request) (c : ℕ) (w : World S)
      → of_code (get_word q "type") ≡ BlasterType.other c
      → let e : Message = fmt "Invalid BLASTER type specified" (c ∷ []) in
        (read_conf_ram card q w ≡ (throw Exn.range_error e, w))
        × (write_conf_ram card q w ≡ (
          ok tt,
          record w {
            reply = set_string "error" (caught "Error writing configuration RAM: " e) ∷ w.reply;
          },
        ))
  unfolding read_conf_ram write_conf_ram catching write_conf_ram_local require_exact check_blob_size
      get_ram_max_size
  conf_ram-unknown_type q c w other = (rw other, rw other)
