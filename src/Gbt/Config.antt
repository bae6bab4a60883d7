-- ===== src/Gbt/Config.antt =====
-- Writing the registers of a GBT: one, the three of a phase, or the whole configuration.
pub mod Laws
pub mod Sends
pub mod Ends
use ctp7_modules.Prelude.{
  ℕ, zero, suc, ◌+◌, ◌-◌, ◌*◌, ◌%◌, ◌^◌, String, List, [], ◌∷◌, Bool, true, false, not, ltb, leb,
  ◌==◌, if◌then◌else◌, length, get_or,
}
use ctp7_modules.Effect.{Card, M, Request, get_word, Message, fmt, ok, pure, ◌>>=◌, ◌>>◌, set_error}
use ctp7_modules.Register.{read_reg, write_reg}
use ctp7_modules.Constants.{gbts_per_oh, gbt_config_size, vfats_per_oh, phase_min, phase_max}
use ctp7_modules.Gbt.Tables.{vfat_gbt, phase_registers}

-- `EMIT_RPC_ERROR(response, message, true)`.
abbrev pub emit_error : {S : Type 0} → Message → M S Bool
emit_error m = do set_error m; pure true

abbrev pub oh_message : ℕ → ℕ → Message
oh_message ohN ohMax =
    fmt "The ohN parameter supplied (%u) exceeds the number of OH's supported by the CTP7 (%u)."
      (ohN ∷ ohMax ∷ [])

abbrev pub vfat_message : ℕ → Message
vfat_message vfatN =
    fmt "The vfatN parameter supplied (%u) exceeds the number of VFAT's per OH (%u)."
      (vfatN ∷ vfats_per_oh ∷ [])

abbrev pub phase_message : ℕ → Message
phase_message phase =
    fmt "The phase parameter supplied (%hhu) is bigger than the maximal phase (%hhu)."
      (phase ∷ phase_max ∷ [])

unfoldable pub check_phase : {S : Type 0} → ℕ → M S Bool
check_phase phase =
    if ltb phase phase_min
    then emit_error (
        fmt "The phase parameter supplied (%hhu) is smaller than the minimal phase (%hhu)."
          (phase ∷ phase_min ∷ []))
    else if ltb phase_max phase
    then emit_error (phase_message phase)
    else pure false

module _ {S : Type 0} (card : Card S) where
  -- The five writes of the slow-control sequence.
  unfoldable pub send_gbt_reg : ℕ → ℕ → ℕ → M S (Unit {0})
  send_gbt_reg linkN address value = do
    write_reg card "GEM_AMC.SLOW_CONTROL.IC.READ_WRITE_LENGTH" 1
    write_reg card "GEM_AMC.SLOW_CONTROL.IC.GBTX_LINK_SELECT" linkN
    write_reg card "GEM_AMC.SLOW_CONTROL.IC.ADDRESS" address
    write_reg card "GEM_AMC.SLOW_CONTROL.IC.WRITE_DATA" value
    write_reg card "GEM_AMC.SLOW_CONTROL.IC.EXECUTE_WRITE" 1

  unfoldable pub write_gbt_reg : ℕ → ℕ → ℕ → ℕ → M S Bool
  write_gbt_reg ohN gbtN address value =
      if leb gbts_per_oh gbtN
      then emit_error (
          fmt "The gbtN parameter supplied (%u) is larger than the number of GBT's per OH (%u)."
            (gbtN ∷ gbts_per_oh ∷ []))
      else if leb gbt_config_size address
      then emit_error (
          fmt "GBT has %hu writable addresses while the provided address is %hu."
            ((gbt_config_size - 1) ∷ address ∷ []))
      else (do send_gbt_reg ((ohN * gbts_per_oh + gbtN) % 2 ^ 32) address value; pure false)

  -- The loop over `regN` of `writeGBTPhaseLocal`, which an error ends.
  unfoldable pub write_phase_regs : ℕ → ℕ → List ℕ → ℕ → M S Bool
  write_phase_regs ohN gbtN [] phase = pure false
  write_phase_regs ohN gbtN (address ∷ rest) phase =
      write_gbt_reg ohN gbtN address phase >>= (λ failed. elim failed [
        | true ↦ pure true
        | false ↦ write_phase_regs ohN gbtN rest phase
      ])

  -- The check of `ohN` that three functions begin with; `go` is the rest of the function.
  unfoldable pub with_oh : ℕ → M S Bool → M S Bool
  with_oh ohN go = do
    ohMax ← read_reg card "GEM_AMC.GEM_SYSTEM.CONFIG.NUM_OF_OH"
    if leb ohMax ohN then emit_error (oh_message ohN ohMax) else go

  unfoldable pub write_gbt_phase_local : ℕ → ℕ → ℕ → M S Bool
  write_gbt_phase_local ohN vfatN phase = with_oh ohN (
      if leb vfats_per_oh vfatN then emit_error (vfat_message vfatN) else (do
        bad ← check_phase phase
        if bad
            then pure true
            else write_phase_regs ohN (vfat_gbt vfatN) (phase_registers vfatN) phase))

  -- The loop over `address` of `writeGBTConfigLocal`, with the registers that are left.
  unfoldable pub write_config_from : ℕ → ℕ → ℕ → List ℕ → M S Bool
  write_config_from ohN gbtN address [] = pure false
  write_config_from ohN gbtN address (value ∷ rest) =
      write_gbt_reg ohN gbtN address value >>= (λ failed. elim failed [
        | true ↦ pure true
        | false ↦ write_config_from ohN gbtN (address + 1) rest
      ])

  unfoldable pub write_gbt_config_local : ℕ → ℕ → List ℕ → M S Bool
  write_gbt_config_local ohN gbtN config = with_oh ohN (
      if leb gbts_per_oh gbtN
      then emit_error (
          fmt "The gbtN parameter supplied (%u) exceeds the number of GBT's per OH (%u)."
            (gbtN ∷ gbts_per_oh ∷ []))
      else write_config_from ohN gbtN 0 config)

  -- The handler `writeGBTConfig`; the key "config" is a blob of bytes.
  unfoldable pub write_gbt_config : Request → M S (Unit {0})
  write_gbt_config request =
      let config = request.binarydata "config" in
      if length config == gbt_config_size
      then (do
        write_gbt_config_local (get_word request "ohN") (get_word request "gbtN") config
        pure tt)
      else set_error (
          fmt
            "The provided configuration has not the correct size. It is %u registers long while this methods expects %hu 8-bits registers."
            (length config ∷ gbt_config_size ∷ []))

  -- The handler `writeGBTPhase`; the phase is cut to a `uint8_t`.
  unfoldable pub write_gbt_phase : Request → M S (Unit {0})
  write_gbt_phase request = do
    write_gbt_phase_local (get_word request "ohN") (get_word request "vfatN")
        (get_word request "phase" % 2 ^ 8)
    pure tt
