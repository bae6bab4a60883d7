-- ===== src/Gbt/Tables.antt =====
-- The look-ups of `writeGBTPhaseLocal` in the mappings between VFATs, GBTs and elinks.
use ctp7_modules.Prelude.{ℕ, List, [], get_or}
use ctp7_modules.Constants.{vfat_to_gbt, vfat_to_elink, elink_to_registers}

abbrev pub vfat_gbt : ℕ → ℕ
vfat_gbt vfat = get_or vfat_to_gbt vfat 0

abbrev pub vfat_elink : ℕ → ℕ
vfat_elink vfat = get_or vfat_to_elink vfat 0

-- The three registers that hold one phase.
abbrev pub phase_registers : ℕ → List ℕ
phase_registers vfat = get_or elink_to_registers (vfat_elink vfat) []
