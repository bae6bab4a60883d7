-- ===== src/BlasterRam/Handlers.antt =====
-- The RPC methods of src/amc/blaster_ram.cpp.
use ctp7_modules.Prelude.{
  ℕ, zero, suc, ◌%◌, ◌^◌, String, List, [], ◌∷◌, Bool, true, false, Option, none, some, length,
  replicate, take,
}
use ctp7_modules.Effect.{
  Card, M, Request, get_word, Exn, Message, caught, Outcome, ok, throw, blocked, exited, fault,
  spinning, set_binarydata, is_runtime_error, World, pure, stop, ◌>>=◌, respond, set_error,
}
use ctp7_modules.BlasterRam.Size.{of_code, get_ram_max_size}
use ctp7_modules.BlasterRam.Read.{read_conf_ram_local}
use ctp7_modules.BlasterRam.Write.{
  write_conf_ram_local, write_gbt_conf_ram_local, write_opto_hybrid_conf_ram_local,
  write_vfat_conf_ram_local,
}

-- `catch (std::runtime_error& e)`, which puts its text in front of `e.what()`.
module _ {S : Type 0} where
  abbrev caught_or : Bool → String → Exn → Message → M S (Unit {0})
  caught_or true t e m = set_error (caught t m)
  caught_or false t e m = stop (throw e m)

  abbrev handle : String → Outcome (Unit {0}) × World S → Outcome (Unit {0}) × World S
  handle t (ok a, w) = (ok a, w)
  handle t (throw e m, w) = caught_or (is_runtime_error e) t e m w
  handle t (blocked, w) = (blocked, w)
  handle t (exited, w) = (exited, w)
  handle t (fault, w) = (fault, w)
  handle t (spinning, w) = (spinning, w)

  unfoldable pub catching : String → M S (Unit {0}) → M S (Unit {0})
  catching t body w = handle t (body w)

-- `confblob.data()` behind `reserve(n)`: null while nothing is allocated.
reserved : ℕ → Option (List ℕ)
reserved zero = none
reserved (suc n) = some (replicate (suc n) 0)

-- The first words of a buffer, into the reply.
words_of : ℕ → Option (List ℕ) → List ℕ
words_of n none = []
words_of n (some b) = take n b

module _ {S : Type 0} (card : Card S) where
  -- `getRAMMaxSize` stands before the `try`.
  unfoldable pub read_conf_ram : Request → M S (Unit {0})
  unfolding reserved words_of
  read_conf_ram request = do
    let type = of_code (get_word request "type")
    blob_sz ← get_ram_max_size card type
    catching "Error reading configuration RAM: " (do
      r ← read_conf_ram_local card type (reserved blob_sz) blob_sz
      respond (set_binarydata "confblob" (words_of r.0 r.1)))

  -- `confblob` is an array on the stack, never null.
  unfoldable pub write_conf_ram : Request → M S (Unit {0})
  write_conf_ram request =
      let blob = request.binarydata "confblob" in
      catching "Error writing configuration RAM: " (
        write_conf_ram_local card (of_code (get_word request "type")) (some blob)
          (length blob % 2 ^ 32))

  -- `get_binarydata` into a null pointer: undefined, unless there is nothing to copy; then the blob
  -- is empty.
  abbrev into_null : List ℕ → M S (List ℕ)
  into_null [] = pure []
  into_null (v ∷ l) = stop fault

  unfoldable pub write_gbt_conf_ram : Request → M S (Unit {0})
  write_gbt_conf_ram request = do
    blob ← into_null (request.binarydata "gbtblob")
    catching "Error writing GBT configuration RAM: " (write_gbt_conf_ram_local card blob 0 0xfff)

  unfoldable pub write_opto_hybrid_conf_ram : Request → M S (Unit {0})
  write_opto_hybrid_conf_ram request = do
    blob ← into_null (request.binarydata "ohblob")
    catching "Error writing OptoHybrid configuration RAM: "
        (write_opto_hybrid_conf_ram_local card blob 0 0xfff)

  unfoldable pub write_vfat_conf_ram : Request → M S (Unit {0})
  write_vfat_conf_ram request = do
    blob ← into_null (request.binarydata "vfatblob")
    catching "Error writing VFAT configuration RAM: " (write_vfat_conf_ram_local card blob 0 0xfff)
