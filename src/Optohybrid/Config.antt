-- ===== src/Optohybrid/Config.antt =====
-- src/optohybrid.cpp: the thresholds and trims of the VFAT2 chips from their configuration files,
-- the whole configuration, and the status of the OptoHybrids.
pub mod Laws
use package.text.Mathlib.Text.{◌==◌ as str_eq}
use ctp7_modules.Prelude.{
  ℕ, zero, suc, ◌+◌, ◌*◌, ◌%◌, ◌^◌, String, List, [], ◌∷◌, Bool, Option, none, some, ◌==◌,
  if◌then◌else◌,
}
use ctp7_modules.Prelude.Bits.{bit}
use ctp7_modules.Effect.{
  Card, M, Request, get_word, fault, text, set_word, pure, stop, ◌>>=◌, ◌>>◌, respond, set_error,
}
use ctp7_modules.Names.{decimal, int_decimal, ◌◇◌}
use ctp7_modules.Files.{Files, body_lines, extract_words}
use ctp7_modules.Loops.{for_each}
use ctp7_modules.Register.{report, write_raw_reg}
use ctp7_modules.Optohybrid.Broadcast.{
  geb, default_mask, broadcast_write_local, bias_all_vfats_local, set_all_vfats_to_run_mode_local,
}

abbrev settings_error : {S : Type 0} → M S (Unit {0})
settings_error = set_error (text "Error reading settings")

-- The registers of `statusOHLocal`.
abbrev pub oh_registers : List String
oh_registers =
    "CFG_PULSE_STRETCH " ∷ "TRIG.CTRL.SBIT_SOT_READY" ∷ "TRIG.CTRL.SBIT_SOT_UNSTABLE"
    ∷ "GBT.TX.TX_READY" ∷ "GBT.RX.RX_READY" ∷ "GBT.RX.RX_VALID" ∷ "GBT.RX.CNT_LINK_ERR"
    ∷ "ADC.CTRL.CNT_OVERTEMP" ∷ "ADC.CTRL.CNT_VCCAUX_ALARM" ∷ "ADC.CTRL.CNT_VCCINT_ALARM"
    ∷ "CONTROL.RELEASE.DATE" ∷ "CONTROL.RELEASE.VERSION.MAJOR" ∷ "CONTROL.RELEASE.VERSION.MINOR"
    ∷ "CONTROL.RELEASE.VERSION.BUILD" ∷ "CONTROL.RELEASE.VERSION.GENERATION"
    ∷ "CONTROL.SEM.CNT_SEM_CRITICAL" ∷ "CONTROL.SEM.CNT_SEM_CORRECTION" ∷ "TRIG.CTRL.SOT_INVERT"
    ∷ "GBT.TX.CNT_RESPONSE_SENT" ∷ "GBT.RX.CNT_REQUEST_RECEIVED"
    ∷ "CLOCKING.CLOCKING.GBT_MMCM_LOCKED" ∷ "CLOCKING.CLOCKING.LOGIC_MMCM_LOCKED"
    ∷ "CLOCKING.CLOCKING.GBT_MMCM_UNLOCKED_CNT" ∷ "CLOCKING.CLOCKING.LOGIC_MMCM_UNLOCKED_CNT" ∷ []

module _ {S : Type 0} (card : Card S) where
  -- A line of the thresholds' file. The name is put together in a buffer that is not used: what is
  -- written to is the string `regName`, which is empty throughout.
  unfoldable pub load_threshold : List ℕ → M S (Unit {0})
  load_threshold (vfatN ∷ vt1 ∷ trimRange ∷ []) = do
    write_raw_reg card "" vt1
    write_raw_reg card "" trimRange
  load_threshold _ = stop fault

  -- The loop over the lines, which a line that cannot be read ends.
  unfoldable pub load_thresholds : List String → M S (Unit {0})
  load_thresholds [] = pure tt
  load_thresholds (line ∷ rest) = elim (extract_words 3 line) [
    | none ↦ settings_error
    | some vs ↦ load_threshold vs >> load_thresholds rest
  ]

  unfoldable pub load_vt1_local : ℕ → Files → ℕ → String → ℕ → M S (Unit {0})
  load_vt1_local fuel files ohN config_file vt1 =
      if str_eq config_file ""
      then broadcast_write_local card fuel ohN "VThreshold1" vt1 default_mask
      else load_thresholds (body_lines (files config_file))

  -- A line of the trims' file.
  unfoldable pub load_trim : ℕ → List ℕ → M S (Unit {0})
  load_trim ohN (vfatN ∷ vfatCH ∷ trim ∷ mask ∷ []) =
      write_raw_reg card
        (geb ohN ◇ ".VFATS.VFAT" ◇ int_decimal vfatN ◇ ".VFATChannels.ChanReg" ◇ int_decimal vfatCH)
        ((trim + 32 * mask) % 2 ^ 32)
  load_trim ohN _ = stop fault

  unfoldable pub load_trims : ℕ → List String → M S (Unit {0})
  load_trims ohN [] = pure tt
  load_trims ohN (line ∷ rest) = elim (extract_words 4 line) [
    | none ↦ settings_error
    | some vs ↦ load_trim ohN vs >> load_trims ohN rest
  ]

  unfoldable pub load_trimdac_local : Files → ℕ → String → M S (Unit {0})
  load_trimdac_local files ohN config_file = load_trims ohN (body_lines (files config_file))

  -- The keys of the thresholds, with what stands for a missing one.
  abbrev thresh_file : Request → String
  thresh_file request =
      if request.key_exists "thresh_config_filename"
      then request.string "thresh_config_filename"
      else ""

  abbrev vt1_of : Request → ℕ
  vt1_of request = if request.key_exists "vt1" then get_word request "vt1" else 0x64

  -- The RPC methods.
  unfoldable pub load_vt1 : ℕ → Files → Request → M S (Unit {0})
  load_vt1 fuel files request =
      load_vt1_local fuel files (get_word request "ohN") (thresh_file request) (vt1_of request)

  unfoldable pub load_trimdac : Files → Request → M S (Unit {0})
  load_trimdac files request =
      load_trimdac_local files (get_word request "ohN") (request.string "trim_config_filename")

  unfoldable pub configure_vfats : ℕ → Files → Request → M S (Unit {0})
  configure_vfats fuel files request = do
    let ohN = get_word request "ohN"
    bias_all_vfats_local card fuel ohN default_mask
    load_vt1_local fuel files ohN (thresh_file request) (vt1_of request)
    load_trimdac_local files ohN (request.string "trim_config_filename")
    if request.key_exists "set_run"
        then set_all_vfats_to_run_mode_local card fuel ohN default_mask
        else pure tt

  -- The loop over the OptoHybrids from `ohN` on, `left` of them.
  unfoldable pub status_from : ℕ → ℕ → ℕ → M S (Unit {0})
  status_from ohEnMask ohN zero = pure tt
  status_from ohEnMask ohN (suc left) =
      (if bit ohN ohEnMask == 1
        then report card ("GEM_AMC.OH.OH" ◇ decimal ohN ◇ ".") oh_registers
        else pure tt)
      >> status_from ohEnMask (ohN + 1) left

  unfoldable pub status_oh_local : ℕ → M S (Unit {0})
  status_oh_local ohEnMask = status_from ohEnMask 0 12

  unfoldable pub status_oh : Request → M S (Unit {0})
  status_oh request = status_oh_local (get_word request "ohEnMask")
