-- ===== src/BlasterRam/Read.antt =====
-- From the RAMs into a blob. A buffer is a list of words, as long as the memory behind the pointer;
-- a block written past its end is undefined behaviour.
use ctp7_modules.Prelude.{
  ℕ, zero, suc, ◌+◌, ◌%◌, ◌^◌, String, List, ◌++◌, true, false, Option, none, some, ltb,
  if◌then◌else◌, length, take, drop,
}
use ctp7_modules.Effect.{Card, M, fault, pure, stop, ◌>>=◌, ◌>>◌}
use ctp7_modules.Names.{decimal, ◌◇◌}
use ctp7_modules.Register.{read_block}
use ctp7_modules.BlasterRam.Size.{
  BlasterType, get_ram_max_size, check_blob_size, is_selected, per_block, all_links, require_size,
}

-- The words of a block, stored from `at` on. A block that was not read leaves the buffer alone.
unfoldable pub store : {S : Type 0} → List ℕ → ℕ → Option (List ℕ) → M S (List ℕ)
store blob at none = pure blob
store blob at (some block) =
    if ltb (length blob) (at + length block)
    then stop fault
    else pure (take at blob ++ block ++ drop (at + length block) blob)

module _ {S : Type 0} (card : Card S) where
  -- `readBlock(la, reg, blob+at, size)`: the count that it returns, and the buffer behind it.
  unfoldable pub read_into : String → List ℕ → ℕ → ℕ → M S (ℕ × List ℕ)
  read_into reg blob at size =
      read_block card reg size 0 >>= (λ r. store blob at r.1 >>= (λ blob'. pure (r.0, blob')))

  -- The loop over the links of the mask, from `oh` on, `left` of them.
  unfoldable pub read_links : String → ℕ → ℕ → ℕ → ℕ → ℕ → ℕ → List ℕ → M S (ℕ × List ℕ)
  read_links name perblk ohMask oh zero at nwords blob = pure (nwords, blob)
  read_links name perblk ohMask oh (suc left) at nwords blob = elim (is_selected ohMask oh) [
    | true ↦ read_into (name ◇ decimal oh) blob at perblk >>= (λ r.
        read_links name perblk ohMask (oh + 1) left (at + perblk) ((nwords + r.0) % 2 ^ 32) r.1)
    | false ↦ read_links name perblk ohMask (oh + 1) left at nwords blob
  ]

  unfoldable pub read_gbt_conf_ram_local : List ℕ → ℕ → ℕ → M S (ℕ × List ℕ)
  read_gbt_conf_ram_local blob blob_sz ohMask = do
    require_size card BlasterType.gbt "Invalid size for GBT BLASTER RAM BLOB" blob_sz
    if all_links ohMask
        then read_into "GEM_AMC.CONFIG_BLASTER.RAM.GBT" blob 0 (blob_sz % 2 ^ 32)
        else read_links "GEM_AMC.CONFIG_BLASTER.RAM.GBT_OH" (per_block BlasterType.gbt) ohMask 0 12
            0 0 blob

  unfoldable pub read_opto_hybrid_conf_ram_local : List ℕ → ℕ → ℕ → M S (ℕ × List ℕ)
  read_opto_hybrid_conf_ram_local blob blob_sz ohMask = do
    require_size card BlasterType.opto_hybrid "Invalid size for OptoHybrid BLASTER RAM BLOB" blob_sz
    if all_links ohMask
        then read_into "GEM_AMC.CONFIG_BLASTER.RAM.OH" blob 0 (blob_sz % 2 ^ 32)
        else read_links "GEM_AMC.CONFIG_BLASTER.RAM.OH_FPGA_OH" (per_block BlasterType.opto_hybrid)
            ohMask 0 12 0 0 blob

  unfoldable pub read_vfat_conf_ram_local : List ℕ → ℕ → ℕ → M S (ℕ × List ℕ)
  read_vfat_conf_ram_local blob blob_sz ohMask = do
    require_size card BlasterType.vfat "Invalid size for VFAT BLASTER RAM BLOB" blob_sz
    if all_links ohMask
        then read_into "GEM_AMC.CONFIG_BLASTER.RAM.VFAT" blob 0 (blob_sz % 2 ^ 32)
        else read_links "GEM_AMC.CONFIG_BLASTER.RAM.VFAT_OH" (per_block BlasterType.vfat) ohMask 0
            12 0 0 blob

  -- The registers of the `switch` of `readConfRAMLocal`.
  unfoldable pub ram_register : BlasterType → String
  ram_register BlasterType.gbt = "GEM_AMC.CONFIG_BLASTER.RAM.GBT"
  ram_register BlasterType.opto_hybrid = "GEM_AMC.CONFIG_BLASTER.RAM.OH_FPGA"
  ram_register _ = "GEM_AMC.CONFIG_BLASTER.RAM.VFAT"

  -- `readConfRAMLocal` of a kind that stands for one RAM, into `blob+at`, which is not null.
  unfoldable pub read_section : BlasterType → List ℕ → ℕ → ℕ → M S (ℕ × List ℕ)
  read_section type blob at blob_sz = do
    valid ← check_blob_size card type blob_sz
    if valid then read_into (ram_register type) blob at (blob_sz % 2 ^ 32) else pure (0, blob)

  -- A call of itself that reads the size of the RAM for its argument.
  abbrev read_whole : BlasterType → List ℕ → ℕ → M S (ℕ × List ℕ)
  read_whole type blob at = get_ram_max_size card type >>= (λ sz. read_section type blob at sz)

  -- The case ALL: each count moves the pointer on.
  unfoldable pub read_sections : List ℕ → M S (ℕ × List ℕ)
  read_sections blob = read_whole BlasterType.gbt blob 0 >>= (λ g.
      read_whole BlasterType.opto_hybrid g.1 g.0 >>= (λ o.
        let two = (g.0 + o.0) % 2 ^ 32 in
        read_whole BlasterType.vfat o.1 two >>= (λ v. pure ((two + v.0) % 2 ^ 32, v.1))))

  abbrev some_of : ℕ × List ℕ → M S (ℕ × Option (List ℕ))
  some_of r = pure (r.0, some r.1)

  -- What follows the check of the size in `readConfRAMLocal`. `none` is a null pointer.
  unfoldable pub read_by_kind : BlasterType → Option (List ℕ) → ℕ → M S (ℕ × Option (List ℕ))
  read_by_kind type none blob_sz = pure (0, none)
  read_by_kind BlasterType.all (some b) blob_sz = read_sections b >>= some_of
  read_by_kind (BlasterType.other c) (some b) blob_sz = pure (0, some b)
  read_by_kind type (some b) blob_sz =
      read_into (ram_register type) b 0 (blob_sz % 2 ^ 32) >>= some_of

  unfoldable pub read_conf_ram_local : BlasterType → Option (List ℕ) → ℕ → M S (ℕ × Option (List ℕ))
  read_conf_ram_local type blob blob_sz = do
    valid ← check_blob_size card type blob_sz
    if valid then read_by_kind type blob blob_sz else pure (0, blob)
