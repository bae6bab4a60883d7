-- ===== src/Optohybrid/Broadcast.antt =====
-- src/optohybrid.cpp: writing and reading a register of all VFATs of one OptoHybrid, and the
-- functions that set the VFATs up by it.
pub mod Laws
use ctp7_modules.Prelude.{
  ℕ, zero, suc, ◌+◌, ◌%◌, ◌^◌, String, List, [], ◌∷◌, Bool, true, false, Option, none, some, ◌==◌,
  ◌||◌, if◌then◌else◌,
}
use ctp7_modules.Prelude.Bits.{bit}
use ctp7_modules.Effect.{
  Card, M, Request, get_word, fault, spinning, text, naming, set_word_array, pure, stop, ◌>>=◌,
  ◌>>◌, respond, set_error, sleep_for,
}
use ctp7_modules.Names.{decimal, int_decimal, ◌◇◌}
use ctp7_modules.Loops.{for_each, for_unmasked}
use ctp7_modules.Register.{read_reg, write_reg, read_raw_reg, write_raw_reg, dead}
use ctp7_modules.Amc.Mask.{fw_version_check}

-- "GEM_AMC.OH.OH%i.GEB"
abbrev pub geb : ℕ → String
geb ohN = "GEM_AMC.OH.OH" ◇ int_decimal ohN ◇ ".GEB"

-- "GEM_AMC.OH.OH%i.GEB.VFAT%i." and the register's name.
abbrev pub vfat_reg : ℕ → ℕ → String → String
vfat_reg ohN vfatN regName = (geb ohN ◇ ".VFAT") ◇ decimal vfatN ◇ "." ◇ regName

-- The mask that the RPC methods take where the request has none.
abbrev pub default_mask : ℕ
default_mask = 0xff000000

unfoldable pub requested_vfat_mask : Request → ℕ
requested_vfat_mask request =
    if request.key_exists "mask" then get_word request "mask" else default_mask

-- vfat_parameters.h, in the order of `std::map`.
abbrev pub vfat_parameters : List (String × ℕ)
vfat_parameters =
    ("CalPhase", 0x00)
    ∷ ("ContReg0", 0x36)
    ∷ ("ContReg1", 0x00)
    ∷ ("ContReg2", 0x30)
    ∷ ("ContReg3", 0x00)
    ∷ ("IComp", 90)
    ∷ ("IPreampFeed", 80)
    ∷ ("IPreampIn", 168)
    ∷ ("IPreampOut", 150)
    ∷ ("IShaper", 150)
    ∷ ("IShaperFeed", 100)
    ∷ ("Latency", 156)
    ∷ ("VCal", 0)
    ∷ ("VThreshold1", 0x64)
    ∷ ("VThreshold2", 0x00)
    ∷ []

-- `regBase` of `broadcastReadLocal`: not initialised for an unknown firmware.
unfoldable pub read_base : ℕ → ℕ → Option String
read_base fw_maj ohN =
    if fw_maj == 1
    then some (geb ohN ◇ ".VFATS.VFAT")
    else if fw_maj == 3
    then some (geb ohN ◇ ".VFAT")
    else none

-- The broadcast module is not running, or cannot be read.
unfoldable pub stands_still : ℕ → Bool
stands_still t_res = t_res == 0 || t_res == dead

module _ {S : Type 0} (card : Card S) where
  -- The loop that waits for the broadcast module, with fuel for the polls.
  unfoldable pub wait_idle : ℕ → String → M S (Unit {0})
  wait_idle zero running = stop spinning
  wait_idle (suc fuel) running = read_raw_reg card running >>= (λ t_res. elim (stands_still t_res) [
    | true ↦ pure tt
    | false ↦ sleep_for card 1_000_000 >> wait_idle fuel running
  ])

  unfoldable pub broadcast_write_v2 : ℕ → ℕ → String → ℕ → ℕ → M S (Unit {0})
  broadcast_write_v2 fuel ohN regName value mask = do
    write_raw_reg card (geb ohN ◇ ".Broadcast.Reset") 0
    write_raw_reg card (geb ohN ◇ ".Broadcast.Mask") mask
    write_raw_reg card (geb ohN ◇ ".Broadcast.Request." ◇ regName) value
    wait_idle fuel (geb ohN ◇ ".Broadcast.Running")

  unfoldable pub broadcast_write_v3 : ℕ → String → ℕ → ℕ → M S (Unit {0})
  broadcast_write_v3 ohN regName value mask =
      for_unmasked (λ vfatN. write_reg card (vfat_reg ohN vfatN regName) value) mask 0 24

  unfoldable pub broadcast_write_local : ℕ → ℕ → String → ℕ → ℕ → M S (Unit {0})
  broadcast_write_local fuel ohN regName value mask = do
    fw_maj ← read_reg card "GEM_AMC.GEM_SYSTEM.RELEASE.MAJOR"
    if fw_maj == 1
        then broadcast_write_v2 fuel ohN regName value mask
        else if fw_maj == 3
        then broadcast_write_v3 ohN regName value mask
        else pure tt

  -- The RPC method.
  unfoldable pub broadcast_write : ℕ → Request → M S (Unit {0})
  broadcast_write fuel request =
      broadcast_write_local fuel (get_word request "ohN") (request.string "reg_name")
        (get_word request "value") (requested_vfat_mask request)

  -- One word of the result: 0 for a masked VFAT.
  unfoldable pub read_vfat : Option String → String → ℕ → M S ℕ
  read_vfat none regName i = stop fault
  read_vfat (some base) regName i = do
    let t_regName = base ◇ decimal i ◇ "." ◇ regName
    v ← read_reg card t_regName
    if v == dead then set_error (naming "Error reading register %s" t_regName) else pure tt
    pure v

  unfoldable pub read_or_zero : Option String → String → ℕ → ℕ → M S ℕ
  read_or_zero base regName mask i = if bit i mask == 1 then pure 0 else read_vfat base regName i

  -- The loop over the VFATs from `i` on, `left` of them.
  unfoldable pub read_vfats : Option String → String → ℕ → ℕ → ℕ → M S (List ℕ)
  read_vfats base regName mask i zero = pure []
  read_vfats base regName mask i (suc left) =
      read_or_zero base regName mask i
      >>= (λ v. read_vfats base regName mask (i + 1) left >>= (λ vs. pure (v ∷ vs)))

  -- The 24 words of `outData`.
  unfoldable pub broadcast_read_local : ℕ → String → ℕ → M S (List ℕ)
  broadcast_read_local ohN regName mask = do
    fw_maj ← read_reg card "GEM_AMC.GEM_SYSTEM.RELEASE.MAJOR"
    if fw_maj == 1 || fw_maj == 3
        then pure tt
        else set_error (text "Unexpected value for system release major!")
    read_vfats (read_base fw_maj ohN) regName mask 0 24

  -- The RPC method.
  unfoldable pub broadcast_read : Request → M S (Unit {0})
  broadcast_read request = do
    outData ←
        broadcast_read_local (get_word request "ohN") (request.string "reg_name")
          (requested_vfat_mask request)
    respond (set_word_array "data" outData)

  unfoldable pub bias_all_vfats_local : ℕ → ℕ → ℕ → M S (Unit {0})
  bias_all_vfats_local fuel ohN mask =
      for_each (λ it. broadcast_write_local fuel ohN it.0 it.1 mask) vfat_parameters

  -- `setAllVFATsToRunModeLocal` and `setAllVFATsToSleepModeLocal`.
  unfoldable pub set_all_vfats_mode : ℕ → ℕ → ℕ → ℕ → ℕ → M S (Unit {0})
  set_all_vfats_mode fuel cfg_run contReg0 ohN mask = do
    fw_maj ← fw_version_check card
    if fw_maj == 3
        then broadcast_write_local fuel ohN "CFG_RUN" cfg_run mask
        else if fw_maj == 1
        then broadcast_write_local fuel ohN "ContReg0" contReg0 mask
        else pure tt

  unfoldable pub set_all_vfats_to_run_mode_local : ℕ → ℕ → ℕ → M S (Unit {0})
  set_all_vfats_to_run_mode_local fuel = set_all_vfats_mode fuel 0x1 0x37

  unfoldable pub set_all_vfats_to_sleep_mode_local : ℕ → ℕ → ℕ → M S (Unit {0})
  set_all_vfats_to_sleep_mode_local fuel = set_all_vfats_mode fuel 0x0 0x36
