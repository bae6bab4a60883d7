-- ===== src/Monitor/Slow.antt =====
-- src/daq_monitor.cpp: the slow control, that is the SCA and the ADC of the FPGA.
use ctp7_modules.Prelude.{
  ℕ, ◌/◌, ◌%◌, ◌^◌, String, List, [], ◌∷◌, ◌++◌, Bool, ◌==◌, if◌then◌else◌, map, bit_and,
}
use ctp7_modules.Prelude.Bits.{complement}
use ctp7_modules.Effect.{Card, M, Request, get_word, flag, set_word, pure, ◌>>=◌, ◌>>◌, respond}
use ctp7_modules.Names.{int_decimal, ◌◇◌}
use ctp7_modules.Register.{read_reg, write_reg}
use ctp7_modules.Amc.Mask.{fw_version_check}
use ctp7_modules.Monitor.{
  oh_key, for_ohs, count_from, local_ohs, with_ohs, monitor_ohs, report_as, report_dead,
}
use ctp7_modules.Monitor.Counters.{oh_pairs, oh_keys}

abbrev pub monitoring : String
monitoring = "GEM_AMC.SLOW_CONTROL.SCA.ADC_MONITORING."

-- The sensors of one OptoHybrid.
abbrev pub sca_names : List String
sca_names =
    "SCA_TEMP" ∷ "BOARD_TEMP1" ∷ "BOARD_TEMP2" ∷ "BOARD_TEMP3" ∷ "BOARD_TEMP4" ∷ "BOARD_TEMP5"
    ∷ "BOARD_TEMP6" ∷ "BOARD_TEMP7" ∷ "BOARD_TEMP8" ∷ "BOARD_TEMP9" ∷ "AVCCN" ∷ "AVTTN" ∷ "1V0_INT"
    ∷ "1V8F" ∷ "1V5" ∷ "2V5_IO" ∷ "3V0" ∷ "1V8" ∷ "VTRX_RSSI2" ∷ "VTRX_RSSI1" ∷ []

-- The alarms of the FPGA, and its values with the addresses and, for firmware 1, the registers.
abbrev pub alarm_names : List String
alarm_names =
    "OVERTEMP" ∷ "CNT_OVERTEMP" ∷ "VCCAUX_ALARM" ∷ "CNT_VCCAUX_ALARM" ∷ "VCCINT_ALARM"
    ∷ "CNT_VCCINT_ALARM" ∷ []

abbrev pub core_names : List String
core_names = "FPGA_CORE_TEMP" ∷ "FPGA_CORE_1V0" ∷ "FPGA_CORE_2V5_IO" ∷ []

-- `(v >> 6) & 0x3ff`
unfoldable pub adc_value : ℕ → ℕ
adc_value v = v / 2 ^ 6 % 2 ^ 10

module _ {S : Type 0} (card : Card S) where
  -- The monitoring is switched on for the mask, and back behind the loop.
  unfoldable pub getmon_oh_sca_main_local : ℕ → ℕ → M S (Unit {0})
  getmon_oh_sca_main_local n ohMask = do
    initSCAMonOffMask ← read_reg card (monitoring ◇ "MONITORING_OFF")
    write_reg card (monitoring ◇ "MONITORING_OFF") (bit_and (complement 32 ohMask) 0x3fc)
    monitor_ohs card (λ ohN. report_dead (oh_keys sca_names ohN))
        (λ ohN. report_as card (oh_pairs monitoring sca_names ohN)) n ohMask
    write_reg card (monitoring ◇ "MONITORING_OFF") initSCAMonOffMask

  unfoldable pub getmon_oh_sca_main : Request → M S (Unit {0})
  getmon_oh_sca_main = with_ohs card getmon_oh_sca_main_local

  -- One value of the ADC, from its register.
  unfoldable pub report_adc : String → String → M S (Unit {0})
  report_adc key register = read_reg card register >>= (λ v. respond (set_word key (adc_value v)))

  -- One value through the ADC of firmware 3, by its address.
  unfoldable pub report_core : String → ℕ → String → ℕ → M S (Unit {0})
  report_core strRegBase ohN name adr = do
    write_reg card (strRegBase ◇ "ADR_IN") adr
    report_adc (oh_key ohN name) (strRegBase ◇ "DATA_OUT")

  unfoldable pub sysmon_v3 : Bool → ℕ → M S (Unit {0})
  sysmon_v3 doReset ohN = do
    let strRegBase = "GEM_AMC.OH." ◇ oh_key ohN "FPGA.ADC.CTRL."
    if doReset then write_reg card (strRegBase ◇ "RESET") 0x1 else pure tt
    report_as card (map (λ name. (oh_key ohN name, strRegBase ◇ name)) alarm_names)
    write_reg card (strRegBase ◇ "ENABLE") 0x1
    report_core strRegBase ohN "FPGA_CORE_TEMP" 0x0
    report_core strRegBase ohN "FPGA_CORE_1V0" 0x1
    report_core strRegBase ohN "FPGA_CORE_2V5_IO" 0x2
    write_reg card (strRegBase ◇ "ENABLE") 0x0

  unfoldable pub sysmon_v2 : ℕ → M S (Unit {0})
  sysmon_v2 ohN = do
    let strRegBase = "GEM_AMC.OH." ◇ oh_key ohN "ADC."
    report_adc (oh_key ohN "FPGA_CORE_TEMP") (strRegBase ◇ "TEMP")
    report_adc (oh_key ohN "FPGA_CORE_1V0") (strRegBase ◇ "VCCINT")
    report_adc (oh_key ohN "FPGA_CORE_2V5_IO") (strRegBase ◇ "VCCAUX")

  -- The number of OptoHybrids is read before the firmware.
  unfoldable pub getmon_oh_sysmon_local : Bool → ℕ → ℕ → M S (Unit {0})
  getmon_oh_sysmon_local doReset n ohMask = do
    left ← local_ohs card n
    fw ← fw_version_check card
    if fw == 3
        then for_ohs (λ ohN. report_dead (oh_keys (alarm_names ++ core_names) ohN))
            (sysmon_v3 doReset) ohMask 0 left
        else for_ohs (λ ohN. report_dead (oh_keys core_names ohN)) sysmon_v2 ohMask 0 left

  unfoldable pub getmon_oh_sysmon : Request → M S (Unit {0})
  getmon_oh_sysmon request = with_ohs card (getmon_oh_sysmon_local (flag request "doReset")) request

  unfoldable pub getmon_sca_local : ℕ → M S (Unit {0})
  getmon_sca_local n = do
    left ← local_ohs card n
    report_as card (
        ("SCA.STATUS.READY", "GEM_AMC.SLOW_CONTROL.SCA.STATUS.READY")
        ∷ ("SCA.STATUS.CRITICAL_ERROR", "GEM_AMC.SLOW_CONTROL.SCA.STATUS.CRITICAL_ERROR")
        ∷ [])
    count_from
        (λ i. report_as card (
          (
            "SCA.STATUS.NOT_READY_CNT_OH" ◇ int_decimal i,
            "GEM_AMC.SLOW_CONTROL.SCA.STATUS.NOT_READY_CNT_OH" ◇ int_decimal i,
          )
          ∷ []))
        0 left

  unfoldable pub getmon_sca : Request → M S (Unit {0})
  getmon_sca request = getmon_sca_local (get_word request "NOH")
