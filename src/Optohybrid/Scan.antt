-- ===== src/Optohybrid/Scan.antt =====
-- src/optohybrid.cpp: the scan controller of the firmware, and the end of the calibration pulses.
pub mod Index
pub mod Laws
pub mod Pulses
use ctp7_modules.Prelude.{
  ℕ, zero, suc, ◌+◌, ◌-◌, ◌*◌, ◌/◌, ◌%◌, ◌^◌, String, List, [], ◌∷◌, Bool, true, false, ◌||◌,
  Option, none, some, ltb, leb, not, ◌==◌, if◌then◌else◌, length, set, replicate,
}
use ctp7_modules.Effect.{
  Card, M, Request, get_word, fault, spinning, text, naming, set_word_array, pure, stop, ◌>>=◌,
  ◌>>◌, respond, set_error, sleep_for,
}
use ctp7_modules.Names.{decimal, int_decimal, ◌◇◌}
use ctp7_modules.Loops.{for_unmasked, for_range}
use ctp7_modules.Register.{read_reg, write_reg, write_raw_reg, dead}
use ctp7_modules.Optohybrid.Broadcast.{geb}

-- "GEM_AMC.OH.OH%u"
abbrev pub oh_base : ℕ → String
oh_base ohN = "GEM_AMC.OH.OH" ◇ decimal ohN

unfoldable pub scan_base : ℕ → Bool → String
scan_base ohN useUltra = oh_base ohN ◇ ".ScanController" ◇ (if useUltra then ".ULTRA" else ".THLAT")

-- The parameters of a scan.
pub record ScanConfig : Type 0 where
  pub vfat_n : ℕ
  pub scanmode : ℕ
  pub use_ultra : Bool
  pub mask : ℕ
  pub ch : ℕ
  pub nevts : ℕ
  pub dac_min : ℕ
  pub dac_max : ℕ
  pub dac_step : ℕ

-- The parameters that the RPC method takes from its request.
unfoldable pub requested_scan : Request → ScanConfig
requested_scan request = record {
  vfat_n = if request.key_exists "useUltra" then 0 else get_word request "vfatN";
  scanmode = get_word request "scanmode";
  use_ultra = request.key_exists "useUltra";
  mask = if request.key_exists "useUltra" then get_word request "mask" else 0xffffffff;
  ch = get_word request "ch";
  nevts = get_word request "nevts";
  dac_min = get_word request "dacMin";
  dac_max = get_word request "dacMax";
  dac_step = get_word request "dacStep";
}

-- `24*(dacMax-dacMin+1)/dacStep`, the length of the array of results, in `uint32_t`.
unfoldable pub points : ℕ → ℕ → ℕ
points dacMin dacMax = (dacMax + 2 ^ 32 - dacMin + 1) % 2 ^ 32

unfoldable pub result_size : ℕ → ℕ → ℕ → ℕ
result_size dacMin dacMax dacStep = 24 * points dacMin dacMax % 2 ^ 32 / dacStep

-- `vfatN*(dacMax-dacMin+1)/dacStep+(dacVal-dacMin)/dacStep`
unfoldable pub result_index : ℕ → ℕ → ℕ → ℕ → ℕ → ℕ
result_index dacMin dacMax dacStep vfatN dacVal =
    (vfatN * points dacMin dacMax % 2 ^ 32 / dacStep
      + (dacVal + 2 ^ 32 - dacMin) % 2 ^ 32 / dacStep)
    % 2 ^ 32

-- The registers that `printScanConfigurationLocal` reads, in the order of `std::map`.
unfoldable pub scan_registers : Bool → List String
scan_registers useUltra =
    ".CONF.CHAN"
    ∷ (if useUltra then ".CONF.MASK" else ".CONF.CHIP")
    ∷ ".CONF.MAX"
    ∷ ".CONF.MIN"
    ∷ ".CONF.MODE"
    ∷ ".CONF.NTRIGS"
    ∷ ".CONF.STEP"
    ∷ ".MONITOR.STATUS"
    ∷ []

abbrev already_running : {S : Type 0} → M S (Unit {0})
already_running = set_error (text "Scan is already running, not starting a new scan")

-- `outData[idx] = v`: behind the array it is undefined.
unfoldable pub put_result : {S : Type 0} → List ℕ → ℕ → ℕ → M S (List ℕ)
put_result outData idx v = if ltb idx (length outData) then pure (set outData idx v) else stop fault

module _ {S : Type 0} (card : Card S) where
  unfoldable pub write_scan_config : String → ScanConfig → M S (Unit {0})
  write_scan_config base c = do
    write_raw_reg card (base ◇ ".RESET") 0x1
    write_reg card (base ◇ ".CONF.MODE") c.scanmode
    if c.use_ultra
        then write_reg card (base ◇ ".CONF.MASK") c.mask
        else write_reg card (base ◇ ".CONF.CHIP") c.vfat_n
    write_reg card (base ◇ ".CONF.CHAN") c.ch
    write_reg card (base ◇ ".CONF.NTRIGS") c.nevts
    write_reg card (base ◇ ".CONF.MIN") c.dac_min
    write_reg card (base ◇ ".CONF.MAX") c.dac_max
    write_reg card (base ◇ ".CONF.STEP") c.dac_step

  unfoldable pub configure_scan_module_local : ℕ → ScanConfig → M S (Unit {0})
  configure_scan_module_local ohN c = do
    let base = scan_base ohN c.use_ultra
    status ← read_reg card (base ◇ ".MONITOR.STATUS")
    if status == 0 then write_scan_config base c else already_running

  unfoldable pub configure_scan_module : Request → M S (Unit {0})
  configure_scan_module request =
      configure_scan_module_local (get_word request "ohN") (requested_scan request)

  unfoldable pub print_registers : String → List String → M S (Unit {0})
  print_registers base [] = pure tt
  print_registers base (reg ∷ rest) = read_reg card (base ◇ reg) >>= (λ v.
      (if v == dead then set_error (naming "Error reading register %s" (base ◇ reg)) else pure tt)
      >> print_registers base rest)

  unfoldable pub print_scan_configuration_local : ℕ → Bool → M S (Unit {0})
  print_scan_configuration_local ohN useUltra =
      print_registers (scan_base ohN useUltra) (scan_registers useUltra)

  unfoldable pub print_scan_configuration : Request → M S (Unit {0})
  print_scan_configuration request =
      print_scan_configuration_local (get_word request "ohN") (request.key_exists "useUltra")

  -- The start, with the reads behind it: a failure is logged only, with two reads more.
  unfoldable pub start_scan : String → M S (Unit {0})
  start_scan base = do
    write_reg card (base ◇ ".START") 0x1
    error ← read_reg card (base ◇ ".MONITOR.ERROR")
    failed ←
        if error == 0
        then read_reg card (base ◇ ".MONITOR.STATUS") >>= (λ status. pure (status == 0))
        else pure true
    if failed
        then (do
          read_reg card (base ◇ ".MONITOR.ERROR")
          read_reg card (base ◇ ".MONITOR.STATUS")
          pure tt)
        else pure tt

  unfoldable pub start_scan_module_local : ℕ → Bool → M S (Unit {0})
  start_scan_module_local ohN useUltra = do
    let base = scan_base ohN useUltra
    status ← read_reg card (base ◇ ".MONITOR.STATUS")
    if status == 0
        then (do
          error ← read_reg card (base ◇ ".MONITOR.ERROR")
          if error == 0 then start_scan base else set_error (text "Error in scan configuration"))
        else already_running

  unfoldable pub start_scan_module : Request → M S (Unit {0})
  start_scan_module request =
      start_scan_module_local (get_word request "ohN") (request.key_exists "useUltra")

  -- A read whose value is only printed.
  unfoldable pub look : String → M S (Unit {0})
  look name = do read_reg card name; pure tt

  abbrev pub sent_l1a : ℕ → String
  sent_l1a ohN = oh_base ohN ◇ ".COUNTERS.T1.SENT.L1A"

  -- The report of the progress of a latency scan: it gives the new `ohnL1A`.
  unfoldable pub progress : ℕ → ℕ → ℕ → M S ℕ
  progress ohN ohnL1A numtrigs = do
    now ← read_reg card (sent_l1a ohN)
    if ltb numtrigs ((now + 2 ^ 32 - ohnL1A) % 2 ^ 32)
        then (do look (sent_l1a ohN); look (sent_l1a ohN); read_reg card (sent_l1a ohN))
        else pure ohnL1A

  -- The wait for the end of the scan, with fuel; `sleep(0.1)` is `sleep(0)`.
  unfoldable pub wait_scan : ℕ → ℕ → Bool → ℕ → ℕ → M S (Unit {0})
  wait_scan zero ohN bIsLatency numtrigs ohnL1A = stop spinning
  wait_scan (suc fuel) ohN bIsLatency numtrigs ohnL1A =
      read_reg card (scan_base ohN true ◇ ".MONITOR.STATUS") >>= (λ status. elim (status == 0) [
        | true ↦ pure tt
        | false ↦
            look (scan_base ohN true ◇ ".MONITOR.STATUS")
            >> ((if bIsLatency then progress ohN ohnL1A numtrigs else pure ohnL1A)
                >>= (λ ohnL1A'. sleep_for card 0 >> wait_scan fuel ohN bIsLatency numtrigs ohnL1A'))
      ])

  -- The loop over the VFATs at one value, from `vfatN` on, `left` of them.
  unfoldable pub read_point : ℕ → (ℕ → ℕ) → ℕ → ℕ → List ℕ → M S (List ℕ)
  read_point ohN index vfatN zero outData = pure outData
  read_point ohN index vfatN (suc left) outData =
      read_reg card
        ("GEM_AMC.OH.OH" ◇ int_decimal ohN ◇ ".ScanController.ULTRA.RESULTS.VFAT" ◇ decimal vfatN)
      >>= (λ v. put_result outData (index vfatN) v >>= read_point ohN index (vfatN + 1) left)

  -- `for (uint32_t dacVal = dacMin; dacVal <= dacMax; dacVal += dacStep)`, with fuel.
  unfoldable pub read_points : ℕ → ℕ → ℕ → ℕ → ℕ → ℕ → List ℕ → M S (List ℕ)
  read_points zero ohN dacMin dacMax dacStep dacVal outData = stop spinning
  read_points (suc fuel) ohN dacMin dacMax dacStep dacVal outData = elim (leb dacVal dacMax) [
    | true ↦
        read_point ohN (λ vfatN. result_index dacMin dacMax dacStep vfatN dacVal) 0 24 outData
        >>= read_points fuel ohN dacMin dacMax dacStep ((dacVal + dacStep) % 2 ^ 32)
    | false ↦ pure outData
  ]

  unfoldable pub get_ultra_scan_results_local : ℕ → ℕ → ℕ → ℕ → ℕ → List ℕ → M S (List ℕ)
  get_ultra_scan_results_local fuel ohN dacMin dacMax dacStep outData = do
    let base = scan_base ohN true
    look (sent_l1a ohN)
    ohnL1A ← read_reg card (sent_l1a ohN)
    numtrigs ← read_reg card (base ◇ ".CONF.NTRIGS")
    mode ← read_reg card (base ◇ ".CONF.MODE")
    if mode == 2 then (do look (sent_l1a ohN); look (sent_l1a ohN)) else pure tt
    wait_scan fuel ohN (mode == 2) numtrigs ohnL1A
    look (base ◇ ".MONITOR.STATUS")
    look (base ◇ ".MONITOR.READY")
    read_points fuel ohN dacMin dacMax dacStep dacMin outData

  -- The RPC method: an array on the stack whose length is a quotient, and 0 in place of its words.
  unfoldable pub get_ultra_scan_results : ℕ → Request → M S (Unit {0})
  get_ultra_scan_results fuel request =
      let dacMin = get_word request "dacMin" in
      let dacMax = get_word request "dacMax" in
      let dacStep = get_word request "dacStep" in
      if dacStep == 0 then stop fault else (do
        outData ←
            get_ultra_scan_results_local fuel (get_word request "ohN") dacMin dacMax dacStep
              (replicate (result_size dacMin dacMax dacStep) 0)
        respond (set_word_array "data" outData))

  abbrev pub v2_channel : ℕ → ℕ → ℕ → String
  v2_channel ohN vfatN chan =
      geb ohN ◇ ".VFATS.VFAT" ◇ decimal vfatN ◇ ".VFATChannels.ChanReg" ◇ int_decimal chan

  unfoldable pub stop_pulse_v2 : ℕ → ℕ → ℕ → M S (Unit {0})
  stop_pulse_v2 ohN vfatN chan = if ltb 127 chan then pure tt else (do
    v ← read_reg card (v2_channel ohN vfatN chan)
    write_reg card (v2_channel ohN vfatN chan) (v % 64))

  unfoldable pub stop_pulse_v3 : ℕ → ℕ → ℕ → M S (Unit {0})
  stop_pulse_v3 ohN vfatN chan =
      write_reg card
        (geb ohN
          ◇ ".VFAT"
          ◇ decimal vfatN
          ◇ ".VFAT_CHANNELS.CHANNEL"
          ◇ int_decimal chan
          ◇ ".CALPULSE_ENABLE")
        0x0

  unfoldable pub stop_cal_pulse_2_all_channels_local : ℕ → ℕ → ℕ → ℕ → ℕ → M S (Unit {0})
  stop_cal_pulse_2_all_channels_local fuel ohN mask ch_min ch_max = do
    fw_maj ← read_reg card "GEM_AMC.GEM_SYSTEM.RELEASE.MAJOR"
    if fw_maj == 1
        then for_unmasked (λ vfatN. for_range fuel 1 ch_max (stop_pulse_v2 ohN vfatN) ch_min) mask 0
            24
        else if fw_maj == 3
        then for_unmasked (λ vfatN. for_range fuel 1 ch_max (stop_pulse_v3 ohN vfatN) ch_min) mask 0
            24
        else pure tt

  unfoldable pub stop_cal_pulse_2_all_channels : ℕ → Request → M S (Unit {0})
  stop_cal_pulse_2_all_channels fuel request =
      stop_cal_pulse_2_all_channels_local fuel (get_word request "ohN") (get_word request "mask")
        (get_word request "ch_min") (get_word request "ch_max")
