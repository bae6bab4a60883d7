-- ===== src/BlasterRam/Write.antt =====
-- From a blob into the RAMs. The blob is the list of the words from the pointer on; a block that
-- reaches past its end is undefined behaviour, once the block gets as far as being written.
use ctp7_modules.Prelude.{
  ℕ, zero, suc, ◌+◌, ◌%◌, ◌^◌, String, List, [], ◌∷◌, Bool, true, false, Option, none, some, ltb,
  if◌then◌else◌, length, drop,
}
use ctp7_modules.Effect.{Card, M, Exn, throw, fault, text, fmt, pure, stop, ◌>>=◌, ◌>>◌}
use ctp7_modules.Names.{decimal, ◌◇◌}
use ctp7_modules.Register.{Verdict, check_block, target_of, write_block}
use ctp7_modules.BlasterRam.Size.{
  BlasterType, get_ram_max_size, check_blob_size, is_selected, per_block, all_links, require_size,
}

module _ {S : Type 0} (card : Card S) where
  -- Whether a block of `size` words is granted to the register.
  abbrev is_granted : Verdict → Bool
  is_granted Verdict.granted = true
  is_granted _ = false

  unfoldable pub grants : String → ℕ → M S Bool
  grants reg size = elim (card.dbi reg) [
    | none ↦ pure false
    | some v ↦ target_of card v >>= (λ t. pure (is_granted (check_block t size 0)))
  ]

  -- `writeBlock(la, reg, blob, size)`, where `blob` may be shorter than the block.
  unfoldable pub write_from : String → List ℕ → ℕ → M S (Unit {0})
  write_from reg blob size =
      (if ltb (length blob) size then grants reg size else pure false)
      >>= (λ overrun. elim overrun [ true ↦ stop fault | false ↦ write_block card reg blob size 0 ])

  -- The loop over the links of the mask, from `oh` on, `left` of them.
  unfoldable pub write_links : String → ℕ → ℕ → ℕ → ℕ → List ℕ → M S (Unit {0})
  write_links name perblk ohMask oh zero blob = pure tt
  write_links name perblk ohMask oh (suc left) blob = elim (is_selected ohMask oh) [
    | true ↦
        write_from (name ◇ decimal oh) blob perblk
        >> write_links name perblk ohMask (oh + 1) left (drop perblk blob)
    | false ↦ write_links name perblk ohMask (oh + 1) left blob
  ]

  unfoldable pub write_gbt_conf_ram_local : List ℕ → ℕ → ℕ → M S (Unit {0})
  write_gbt_conf_ram_local blob blob_sz ohMask = do
    require_size card BlasterType.gbt "Invalid size for GBT BLASTER RAM BLOB" blob_sz
    if all_links ohMask
        then write_from "GEM_AMC.CONFIG_BLASTER.RAM.GBT" blob (blob_sz % 2 ^ 32)
        else write_links "GEM_AMC.CONFIG_BLASTER.RAM.GBT_OH" (per_block BlasterType.gbt) ohMask 0 12
            blob

  unfoldable pub write_opto_hybrid_conf_ram_local : List ℕ → ℕ → ℕ → M S (Unit {0})
  write_opto_hybrid_conf_ram_local blob blob_sz ohMask = do
    require_size card BlasterType.opto_hybrid "Invalid size for OptoHybrid BLASTER RAM BLOB" blob_sz
    if all_links ohMask
        then write_from "GEM_AMC.CONFIG_BLASTER.RAM.OH" blob (blob_sz % 2 ^ 32)
        else write_links "GEM_AMC.CONFIG_BLASTER.RAM.OH_FPGA_OH" (per_block BlasterType.opto_hybrid)
            ohMask 0 12 blob

  unfoldable pub write_vfat_conf_ram_local : List ℕ → ℕ → ℕ → M S (Unit {0})
  write_vfat_conf_ram_local blob blob_sz ohMask = do
    require_size card BlasterType.vfat "Invalid size for VFAT BLASTER RAM BLOB" blob_sz
    if all_links ohMask
        then write_from "GEM_AMC.CONFIG_BLASTER.RAM.VFAT" blob (blob_sz % 2 ^ 32)
        else write_links "GEM_AMC.CONFIG_BLASTER.RAM.VFAT_OH" (per_block BlasterType.vfat) ohMask 0
            12 blob

  -- The `switch` of `writeConfRAMLocal` on a kind that stands for one RAM; the mask is the default.
  unfoldable pub write_kind : BlasterType → List ℕ → M S (Unit {0})
  write_kind BlasterType.gbt blob =
      get_ram_max_size card BlasterType.gbt >>= (λ sz. write_gbt_conf_ram_local blob sz 0xfff)
  write_kind BlasterType.opto_hybrid blob =
      get_ram_max_size card BlasterType.opto_hybrid
      >>= (λ sz. write_opto_hybrid_conf_ram_local blob sz 0xfff)
  write_kind BlasterType.vfat blob =
      get_ram_max_size card BlasterType.vfat >>= (λ sz. write_vfat_conf_ram_local blob sz 0xfff)
  write_kind _ blob = pure tt

  -- `checkBLOBSize`, and the exception of `writeConfRAMLocal`.
  unfoldable pub require_exact : BlasterType → ℕ → M S (Unit {0})
  require_exact type blob_sz = do
    valid ← check_blob_size card type blob_sz
    if valid
        then pure tt
        else stop (throw Exn.runtime_error (fmt "Invalid size for BLASTER RAM BLOB" (blob_sz ∷ [])))

  unfoldable pub write_section : BlasterType → List ℕ → M S (Unit {0})
  write_section type blob = do
    sz ← get_ram_max_size card type
    require_exact type sz
    write_kind type blob

  -- The case ALL. The arguments of a call are read before its body runs.
  unfoldable pub write_sections : List ℕ → M S (Unit {0})
  write_sections blob = do
    write_section BlasterType.gbt blob
    g ← get_ram_max_size card BlasterType.gbt
    write_section BlasterType.opto_hybrid (drop g blob)
    g' ← get_ram_max_size card BlasterType.gbt
    o ← get_ram_max_size card BlasterType.opto_hybrid
    write_section BlasterType.vfat (drop (g' + o) blob)

  -- What follows the check of the size in `writeConfRAMLocal`. `none` is a null pointer.
  unfoldable pub write_by_kind : BlasterType → Option (List ℕ) → M S (Unit {0})
  write_by_kind type none =
      stop (throw Exn.runtime_error (text "Invalid BLOB provided to write BLASTER RAM"))
  write_by_kind BlasterType.all (some b) = write_sections b
  write_by_kind (BlasterType.other c) (some b) =
      stop (throw Exn.runtime_error (fmt "Invalid BLASTER RAM type selected for write." (c ∷ [])))
  write_by_kind type (some b) = write_kind type b

  unfoldable pub write_conf_ram_local : BlasterType → Option (List ℕ) → ℕ → M S (Unit {0})
  write_conf_ram_local type blob blob_sz = do require_exact type blob_sz; write_by_kind type blob
