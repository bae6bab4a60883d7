-- ===== src/BlasterRam/Size.antt =====
-- The kinds of RAM, their sizes and where a component's part of one begins.
use ctp7_modules.Prelude.{
  ℕ, ◌+◌, ◌*◌, ◌%◌, ◌^◌, String, [], ◌∷◌, Bool, ltb, ◌==◌, ◌||◌, if◌then◌else◌,
}
use ctp7_modules.Prelude.Bits.{bit}
use ctp7_modules.Effect.{Card, M, Exn, throw, fmt, pure, stop, ◌>>=◌}
use ctp7_modules.Names.{decimal, ◌◇◌}
use ctp7_modules.Register.{read_reg, get_address}
use ctp7_modules.Constants.{
  gbts_per_oh, gbt_single_ram_size, oh_single_ram_size, vfats_per_oh, vfat_single_ram_size,
}

-- `EBLASTERType`; a word of a request is cast to it unchecked, so another value is possible.
pub data BlasterType : Type 0 where
  gbt opto_hybrid vfat all : BlasterType
  other : ℕ → BlasterType

unfoldable pub of_code : ℕ → BlasterType
of_code c =
    if c == 1
    then BlasterType.gbt
    else if c == 2
    then BlasterType.opto_hybrid
    else if c == 4
    then BlasterType.vfat
    else if c == 7
    then BlasterType.all
    else BlasterType.other c

-- `(0x1<<oh)&ohMask`
unfoldable pub is_selected : ℕ → ℕ → Bool
is_selected ohMask oh = bit oh ohMask == 1

-- `perblk` of the three kinds.
unfoldable pub per_block : BlasterType → ℕ
per_block BlasterType.gbt = gbt_single_ram_size * gbts_per_oh
per_block BlasterType.opto_hybrid = oh_single_ram_size
per_block BlasterType.vfat = vfat_single_ram_size * vfats_per_oh
per_block _ = 0

-- `ohMask == 0x0 || ohMask == 0xfff`
unfoldable pub all_links : ℕ → Bool
all_links ohMask = ohMask == 0 || ohMask == 0xfff

module _ {S : Type 0} (card : Card S) where
  abbrev size_register : String → M S ℕ
  size_register name = read_reg card ("GEM_AMC.CONFIG_BLASTER.STATUS." ◇ name)

  unfoldable pub get_ram_max_size : BlasterType → M S ℕ
  get_ram_max_size BlasterType.gbt = size_register "GBT_RAM_SIZE"
  get_ram_max_size BlasterType.opto_hybrid = size_register "OH_RAM_SIZE"
  get_ram_max_size BlasterType.vfat = size_register "VFAT_RAM_SIZE"
  get_ram_max_size BlasterType.all = do
    g ← size_register "GBT_RAM_SIZE"
    o ← size_register "OH_RAM_SIZE"
    v ← size_register "VFAT_RAM_SIZE"
    pure ((g + o + v) % 2 ^ 32)
  get_ram_max_size (BlasterType.other c) =
      stop (throw Exn.range_error (fmt "Invalid BLASTER type specified" (c ∷ [])))

  unfoldable pub check_blob_size : BlasterType → ℕ → M S Bool
  check_blob_size type sz = do ram_sz ← get_ram_max_size type; pure (sz == ram_sz)

  -- `base` is a `uint32_t`, `partN` a `uint8_t`.
  abbrev part_address : String → ℕ → ℕ → M S ℕ
  part_address name ohN offset = do
    base ← get_address card ("GEM_AMC.CONFIG_BLASTER.RAM." ◇ name ◇ decimal ohN)
    pure ((base + offset) % 2 ^ 32)

  unfoldable pub get_ram_base_addr : BlasterType → ℕ → ℕ → M S ℕ
  get_ram_base_addr BlasterType.gbt ohN partN =
      if ltb 2 partN
      then stop (throw Exn.range_error (fmt "Invalid GBT specified: GBT" (partN ∷ 2 ∷ [])))
      else part_address "GBT_OH" ohN (gbt_single_ram_size * partN)
  get_ram_base_addr BlasterType.opto_hybrid ohN partN = part_address "OH_FPGA_OH" ohN 0
  get_ram_base_addr BlasterType.vfat ohN partN =
      if ltb 23 partN
      then stop (throw Exn.range_error (fmt "Invalid GBT specified: VFAT" (partN ∷ 23 ∷ [])))
      else part_address "VFAT_OH" ohN (vfat_single_ram_size * partN)
  get_ram_base_addr BlasterType.all ohN partN =
      stop (throw Exn.runtime_error (fmt "Invalid BLASTER type specified" (7 ∷ [])))
  get_ram_base_addr (BlasterType.other c) ohN partN =
      stop (throw Exn.runtime_error (fmt "Invalid BLASTER type specified" (c ∷ [])))

  -- The guard of the six transfers of one kind: a blob must not be larger than the RAM.
  unfoldable pub require_size : BlasterType → String → ℕ → M S (Unit {0})
  require_size type t blob_sz = do
    max ← get_ram_max_size type
    if ltb max blob_sz then stop (throw Exn.range_error (fmt t (blob_sz ∷ []))) else pure tt
