-- ===== src/Vfat3/Sync.antt =====
-- src/vfat3.cpp: which VFATs are synchronised, the check that the other functions begin with, and
-- the configuration of the chips from their files.
pub mod Laws
pub mod Guard
use ctp7_modules.Prelude.{
  ℕ, zero, suc, ◌+◌, ◌-◌, ◌^◌, String, List, [], ◌∷◌, Bool, true, false, Option, none, some, not,
  ◌&&◌, ◌==◌, if◌then◌else◌, bit_and, bit_or,
}
use ctp7_modules.Prelude.Bits.{complement}
use ctp7_modules.Effect.{
  Card, M, Request, get_word, Message, text, naming, fmt, set_word, pure, ◌>>=◌, ◌>>◌, respond,
  set_error,
}
use ctp7_modules.Names.{decimal, int_decimal, ◌◇◌}
use ctp7_modules.Files.{Files, body_lines, extract_setting}
use ctp7_modules.Loops.{until_selected}
use ctp7_modules.Amc.Mask.{sync_err_cnt}
use ctp7_modules.Register.{read_reg, write_reg, report}

-- "GEM_AMC.OH_LINKS.OH%i.VFAT%i"
abbrev pub link_base : ℕ → ℕ → String
link_base ohN vfatN = "GEM_AMC.OH_LINKS.OH" ◇ int_decimal ohN ◇ ".VFAT" ◇ decimal vfatN

abbrev pub link_good : ℕ → ℕ → String
link_good ohN vfatN = link_base ohN vfatN ◇ ".LINK_GOOD"

-- `~mask & 0xFFFFFF`
unfoldable pub not_mask : ℕ → ℕ
not_mask mask = bit_and (complement 32 mask) 0xffffff

abbrev pub not_synced : ℕ → ℕ → Message
not_synced goodVFATs notmask =
    fmt "One of the unmasked VFATs is not Synced. goodVFATs: %x\tnotmask: %x"
      (goodVFATs ∷ notmask ∷ [])

-- The registers of `statusVFAT3sLocal`.
abbrev pub vfat_registers : List String
vfat_registers =
    "CFG_PULSE_STRETCH " ∷ "CFG_SYNC_LEVEL_MODE" ∷ "CFG_FP_FE" ∷ "CFG_RES_PRE" ∷ "CFG_CAP_PRE"
    ∷ "CFG_PT" ∷ "CFG_SEL_POL" ∷ "CFG_FORCE_EN_ZCC" ∷ "CFG_SEL_COMP_MODE" ∷ "CFG_VREF_ADC"
    ∷ "CFG_IREF" ∷ "CFG_THR_ARM_DAC" ∷ "CFG_LATENCY" ∷ "CFG_CAL_SEL_POL" ∷ "CFG_CAL_DAC"
    ∷ "CFG_CAL_MODE" ∷ "CFG_BIAS_CFD_DAC_2" ∷ "CFG_BIAS_CFD_DAC_1" ∷ "CFG_BIAS_PRE_I_BSF"
    ∷ "CFG_BIAS_PRE_I_BIT" ∷ "CFG_BIAS_PRE_I_BLCC" ∷ "CFG_BIAS_PRE_VREF" ∷ "CFG_BIAS_SH_I_BFCAS"
    ∷ "CFG_BIAS_SH_I_BDIFF" ∷ "CFG_BIAS_SH_I_BFAMP" ∷ "CFG_BIAS_SD_I_BDIFF" ∷ "CFG_BIAS_SD_I_BSF"
    ∷ "CFG_BIAS_SD_I_BFCAS" ∷ "CFG_RUN" ∷ []

module _ {S : Type 0} (card : Card S) where
  -- `linkGood && (linkErrors == 0)` of one VFAT; both registers are read.
  unfoldable pub is_synced : ℕ → ℕ → M S Bool
  is_synced ohN vfatN = do
    linkGood ← read_reg card (link_good ohN vfatN)
    linkErrors ← read_reg card (sync_err_cnt ohN vfatN)
    pure (not (linkGood == 0) && (linkErrors == 0))

  -- The loop over the VFATs from `vfatN` on, `left` of them.
  unfoldable pub sync_from : ℕ → ℕ → ℕ → ℕ → M S ℕ
  sync_from ohN vfatN zero goodVFATs = pure goodVFATs
  sync_from ohN vfatN (suc left) goodVFATs = is_synced ohN vfatN >>= (λ good.
      sync_from ohN (vfatN + 1) left (bit_or goodVFATs (if good then 2 ^ vfatN else 0)))

  unfoldable pub vfat_sync_check_local : ℕ → M S ℕ
  vfat_sync_check_local ohN = sync_from ohN 0 24 0

  -- The RPC method.
  unfoldable pub vfat_sync_check : Request → M S (Unit {0})
  vfat_sync_check request = do
    goodVFATs ← vfat_sync_check_local (get_word request "ohN")
    respond (set_word "goodVFATs" goodVFATs)

  -- What three functions begin with: `go` is the rest, given `notmask`.
  unfoldable pub with_synced : ℕ → ℕ → (ℕ → M S (Unit {0})) → M S (Unit {0})
  with_synced ohN mask go = do
    goodVFATs ← vfat_sync_check_local ohN
    if bit_and (not_mask mask) goodVFATs == not_mask mask
        then go (not_mask mask)
        else set_error (not_synced goodVFATs (not_mask mask))

  -- The lines of a configuration file; a line that cannot be read ends them.
  unfoldable pub load_settings : String → List String → M S (Unit {0})
  load_settings reg_basename [] = pure tt
  load_settings reg_basename (line ∷ rest) = elim (extract_setting line) [
    | none ↦ set_error (text "Error reading settings")
    | some setting ↦
        write_reg card (reg_basename ◇ setting.0) setting.1 >> load_settings reg_basename rest
  ]

  unfoldable pub config_file : ℕ → ℕ → String
  config_file ohN vfatN =
      "/mnt/persistent/gemdaq/vfat3/config_OH" ◇ decimal ohN ◇ "_VFAT" ◇ decimal vfatN ◇ ".txt"

  -- One VFAT: a file that cannot be opened ends the function.
  unfoldable pub configure_vfat : Files → ℕ → ℕ → M S Bool
  configure_vfat files ohN vfatN = elim (files (config_file ohN vfatN)) [
    | none ↦ set_error (naming "could not open config file %s" (config_file ohN vfatN)) >> pure true
    | some lines ↦
        load_settings ("GEM_AMC.OH.OH" ◇ decimal ohN ◇ ".GEB.VFAT" ◇ decimal vfatN ◇ ".CFG_")
          (body_lines (some lines))
        >> pure false
  ]

  unfoldable pub configure_vfat3s_local : Files → ℕ → ℕ → M S (Unit {0})
  configure_vfat3s_local files ohN vfatMask =
      with_synced ohN vfatMask
        (λ notmask. do until_selected (configure_vfat files ohN) notmask 0 24; pure tt)

  unfoldable pub configure_vfat3s : Files → Request → M S (Unit {0})
  configure_vfat3s files request =
      configure_vfat3s_local files (get_word request "ohN") (get_word request "vfatMask")

  unfoldable pub report_vfats : ℕ → ℕ → ℕ → M S (Unit {0})
  report_vfats ohN vfatN zero = pure tt
  report_vfats ohN vfatN (suc left) =
      report card (link_base ohN vfatN ◇ ".") vfat_registers >> report_vfats ohN (vfatN + 1) left

  unfoldable pub status_vfat3s_local : ℕ → M S (Unit {0})
  status_vfat3s_local ohN = report_vfats ohN 0 24

  unfoldable pub status_vfat3s : Request → M S (Unit {0})
  status_vfat3s request = status_vfat3s_local (get_word request "ohN")
