-- ===== src/Calibration.antt =====
-- src/calibration_routines.cpp: what its scans are set up with, the masks of the channels, the
-- calibration pulses, the monitor and the generator of triggers. The scans have no definition.
pub mod Laws
use ctp7_modules.Prelude.{
  ℕ, zero, suc, ◌+◌, ◌%◌, ◌^◌, String, List, [], ◌∷◌, Bool, true, false, ltb, leb, not, ◌&&◌, ◌==◌,
  if◌then◌else◌,
}
use ctp7_modules.Effect.{Card, M, Request, flag, get_word, text, pure, ◌>>=◌, ◌>>◌, set_error}
use ctp7_modules.Names.{decimal, int_decimal, ◌◇◌}
use ctp7_modules.Loops.{for_selected}
use ctp7_modules.Register.{read_reg, write_reg, get_address, write_raw_address}
use ctp7_modules.Amc.Mask.{fw_version_check}
use ctp7_modules.Monitor.{count_from}
use ctp7_modules.Vfat3.Sync.{not_mask}

-- "GEM_AMC.OH.OH%i.GEB.VFAT%i."
abbrev pub vfat_base : ℕ → ℕ → String
vfat_base ohN vfatN = "GEM_AMC.OH.OH" ◇ int_decimal ohN ◇ ".GEB.VFAT" ◇ int_decimal vfatN ◇ "."

-- The name of a field of a channel's register.
abbrev pub channel_field : ℕ → ℕ → ℕ → String → String
channel_field ohN vfatN chan field =
    vfat_base ohN vfatN ◇ "VFAT_CHANNELS.CHANNEL" ◇ int_decimal chan ◇ "." ◇ field

-- `map[address] = value` of the `std::unordered_map`, as the list of its entries.
unfoldable pub drop_entry : ℕ → List (ℕ × ℕ) → List (ℕ × ℕ)
drop_entry address [] = []
drop_entry address (p ∷ ps) =
    if p.0 == address then drop_entry address ps else p ∷ drop_entry address ps

unfoldable pub put_entry : ℕ → ℕ → List (ℕ × ℕ) → List (ℕ × ℕ)
put_entry address value m = (address, value) ∷ drop_entry address m

abbrev pub generator : String
generator = "GEM_AMC.TTC.GENERATOR."

abbrev pub t1_controller : ℕ → String
t1_controller ohN = "GEM_AMC.OH.OH" ◇ decimal ohN ◇ ".T1Controller"

abbrev pub daq_monitor_ctrl : String
daq_monitor_ctrl = "GEM_AMC.GEM_TESTS.VFAT_DAQ_MONITOR.CTRL."

module _ {S : Type 0} (card : Card S) where
  -- The loop over the channels from `chan` on, `left` of them, with the map of the masks so far.
  unfoldable pub mask_channels : ℕ → ℕ → ℕ → ℕ → ℕ → List (ℕ × ℕ) → M S (List (ℕ × ℕ))
  mask_channels ohN vfatN ch chan zero m = pure m
  mask_channels ohN vfatN ch chan (suc left) m =
      get_address card (channel_field ohN vfatN chan "MASK") >>= (λ chanMaskAddr.
        read_reg card (channel_field ohN vfatN chan "MASK") >>= (λ v.
          write_raw_address card chanMaskAddr (if ch == chan then 0 else 1)
          >> mask_channels ohN vfatN ch (chan + 1) left (put_entry chanMaskAddr v m)))

  unfoldable pub set_single_chan_mask : ℕ → ℕ → ℕ → M S (List (ℕ × ℕ))
  set_single_chan_mask ohN vfatN ch = mask_channels ohN vfatN ch 0 128 []

  -- The entries of the map in the order in which it is gone through.
  unfoldable pub apply_chan_mask : List (ℕ × ℕ) → M S (Unit {0})
  apply_chan_mask [] = pure tt
  apply_chan_mask (p ∷ ps) = write_raw_address card p.0 p.1 >> apply_chan_mask ps

  -- The pulses of all channels of one VFAT off.
  unfoldable pub pulses_off : ℕ → ℕ → M S (Unit {0})
  pulses_off ohN vfatN = do
    count_from (λ chan. write_reg card (channel_field ohN vfatN chan "CALPULSE_ENABLE") 0x0) 0 128
    write_reg card (vfat_base ohN vfatN ◇ "CFG_CAL_MODE") 0x0

  -- The pulse of one channel of one VFAT.
  unfoldable pub set_pulse : ℕ → ℕ → Bool → Bool → ℕ → ℕ → M S (Unit {0})
  set_pulse ohN ch toggleOn currentPulse calScaleFactor vfatN = do
    let calpulse = channel_field ohN vfatN ch "CALPULSE_ENABLE"
    let base = vfat_base ohN vfatN
    if toggleOn
        then (do
          write_reg card calpulse 0x1
          if currentPulse
              then (do
                write_reg card (base ◇ "CFG_CAL_MODE") 0x2
                write_reg card (base ◇ "CFG_CAL_FS") calScaleFactor
                write_reg card (base ◇ "CFG_CAL_DUR") 0x0)
              else write_reg card (base ◇ "CFG_CAL_MODE") 0x1)
        else (do write_reg card calpulse 0x0; write_reg card (base ◇ "CFG_CAL_MODE") 0x0)

  -- A channel above 128 that is switched off is taken as one.
  unfoldable pub conf_cal_pulse_local : ℕ → ℕ → ℕ → Bool → Bool → ℕ → M S Bool
  conf_cal_pulse_local ohN mask ch toggleOn currentPulse calScaleFactor =
      if leb 128 ch && toggleOn
      then set_error (
          text
            ("confCalPulseLocal(): I was told to calpulse all channels which doesn't make sense"))
        >> pure false
      else (if (ch == 128) && not toggleOn
          then for_selected (pulses_off ohN) (not_mask mask) 0 24
          else for_selected (set_pulse ohN ch toggleOn currentPulse calScaleFactor) (not_mask mask)
              0 24)
        >> pure true

  unfoldable pub dac_mon_conf_local : ℕ → ℕ → M S (Unit {0})
  dac_mon_conf_local ohN ch = do
    fw ← fw_version_check card
    if fw == 3
        then (do
          write_reg card (daq_monitor_ctrl ◇ "ENABLE") 0x0
          write_reg card (daq_monitor_ctrl ◇ "RESET") 0x1
          write_reg card (daq_monitor_ctrl ◇ "OH_SELECT") ohN
          if ltb 127 ch
              then write_reg card (daq_monitor_ctrl ◇ "VFAT_CHANNEL_GLOBAL_OR") 0x1
              else (do
                write_reg card (daq_monitor_ctrl ◇ "VFAT_CHANNEL_SELECT") ch
                write_reg card (daq_monitor_ctrl ◇ "VFAT_CHANNEL_GLOBAL_OR") 0x0))
        else set_error (text "dacMonConf is only supported in V3 electronics")

  -- The controller of firmware 1 is toggled only if it is not yet as asked for.
  unfoldable pub toggle_t1 : ℕ → Bool → M S (Unit {0})
  toggle_t1 ohN enable = do
    running ← read_reg card (t1_controller ohN ◇ ".MONITOR")
    if enable
        then (if running == 0 then write_reg card (t1_controller ohN ◇ ".TOGGLE") 0x1 else pure tt)
        else (if running == 0 then pure tt else write_reg card (t1_controller ohN ◇ ".TOGGLE") 0x0)

  unfoldable pub ttc_gen_toggle_local : ℕ → Bool → M S (Unit {0})
  ttc_gen_toggle_local ohN enable = do
    fw ← fw_version_check card
    if fw == 3
        then write_reg card (generator ◇ "ENABLE") (if enable then 0x1 else 0x0)
        else if fw == 1
        then toggle_t1 ohN enable
        else pure tt

  unfoldable pub ttc_gen_toggle : Request → M S (Unit {0})
  ttc_gen_toggle request = ttc_gen_toggle_local (get_word request "ohN") (flag request "enable")

  -- A write that is read back for the log.
  unfoldable pub write_logged : String → ℕ → M S (Unit {0})
  write_logged name v = do write_reg card name v; read_reg card name; pure tt

  unfoldable pub conf_t1 : ℕ → (mode type pulseDelay l1aInterval nPulses : ℕ) → M S (Unit {0})
  conf_t1 ohN mode type pulseDelay l1aInterval nPulses = do
    let contBase = t1_controller ohN
    write_reg card (contBase ◇ ".RESET") 0x1
    write_logged (contBase ◇ ".MODE") mode
    if mode == 0 then write_logged (contBase ◇ ".TYPE") type else pure tt
    if mode == 1 then write_logged (contBase ◇ ".DELAY") pulseDelay else pure tt
    if mode == 2 then pure tt else write_logged (contBase ◇ ".INTERVAL") l1aInterval
    write_logged (contBase ◇ ".NUMBER") nPulses

  unfoldable pub ttc_gen_conf_local :
      ℕ → (mode type pulseDelay l1aInterval nPulses : ℕ) → Bool → M S (Unit {0})
  ttc_gen_conf_local ohN mode type pulseDelay l1aInterval nPulses enable = do
    fw ← fw_version_check card
    if fw == 3
        then (do
          write_reg card (generator ◇ "RESET") 0x1
          write_reg card (generator ◇ "CYCLIC_L1A_GAP") l1aInterval
          write_reg card (generator ◇ "CYCLIC_CALPULSE_TO_L1A_GAP") pulseDelay)
        else if fw == 1
        then conf_t1 ohN mode type pulseDelay l1aInterval nPulses
        else pure tt
    ttc_gen_toggle_local ohN enable

  unfoldable pub ttc_gen_conf : Request → M S (Unit {0})
  ttc_gen_conf q =
      ttc_gen_conf_local (get_word q "ohN") (get_word q "mode") (get_word q "type")
        (get_word q "pulseDelay") (get_word q "L1Ainterval") (get_word q "nPulses")
        (flag q "enable")
