-- ===== src/Daq/Link.antt =====
-- src/amc/daq.cpp: what is written to the DAQ link, and the two methods that set the module up.
-- The functions that only log that they are not implemented return 0 or do nothing; their methods
-- have no definition but this one.
pub mod Laws
use ctp7_modules.Prelude.{
  ℕ, ◌%◌, ◌^◌, String, List, [], ◌∷◌, Bool, true, false, ◌||◌, ltb, if◌then◌else◌,
}
use ctp7_modules.Effect.{
  Card, M, Request, get_word, flag, fmt, set_word, pure, ◌>>=◌, ◌>>◌, respond, set_error,
}
use ctp7_modules.Names.{decimal, ◌◇◌}
use ctp7_modules.Register.{write_reg}
use ctp7_modules.Ttc.{ttc_counter_reset_local, set_l1a_enable_local}
use ctp7_modules.Ttc.Shift.{Mode}
use ctp7_modules.Ttc.Phase.{ttc_mmcm_phase_shift_local}
use ctp7_modules.Sca.Command.{sca_hard_reset_enable}
use ctp7_modules.Daq.Status.{daq}

-- `getDAQLinkControl` and the other five methods whose local function gives 0.
unfoldable pub not_implemented : {S : Type 0} → M S (Unit {0})
not_implemented = respond (set_word "result" 0)

module _ {S : Type 0} (card : Card S) where
  -- The mask is not written.
  unfoldable pub enable_daq_link_local : ℕ → M S (Unit {0})
  enable_daq_link_local enableMask = write_reg card (daq "CONTROL.DAQ_ENABLE") 0x1

  unfoldable pub disable_daq_link_local : M S (Unit {0})
  disable_daq_link_local = do
    write_reg card (daq "CONTROL.INPUT_ENABLE_MASK") 0x0
    write_reg card (daq "CONTROL.DAQ_ENABLE") 0x0

  unfoldable pub set_zs_local : Bool → M S (Unit {0})
  set_zs_local en = write_reg card (daq "CONTROL.ZERO_SUPPRESSION_EN") (if en then 1 else 0)

  unfoldable pub disable_zs_local : M S (Unit {0})
  disable_zs_local = write_reg card (daq "CONTROL.ZERO_SUPPRESSION_EN") 0x0

  unfoldable pub set_daq_link_input_timeout_local : ℕ → M S (Unit {0})
  set_daq_link_input_timeout_local inputTO = pure tt

  -- The override of the trigger throttling is not written.
  unfoldable pub reset_daq_link_local : ℕ → ℕ → M S (Unit {0})
  reset_daq_link_local davTO ttsOverride = do
    write_reg card (daq "CONTROL.RESET") 0x1
    write_reg card (daq "CONTROL.RESET") 0x0
    disable_daq_link_local
    write_reg card (daq "CONTROL.DAV_TIMEOUT") davTO
    set_daq_link_input_timeout_local 0x100

  unfoldable pub set_daq_link_run_type_local : ℕ → M S (Unit {0})
  set_daq_link_run_type_local rtype = write_reg card (daq "EXT_CONTROL.RUN_TYPE") rtype

  -- Only the parameters 1 to 3 exist. The number is printed as a character in the error.
  unfoldable pub set_daq_link_run_parameter_local : ℕ → ℕ → M S (Unit {0})
  set_daq_link_run_parameter_local parN rparam =
      if ltb parN 1 || ltb 3 parN
      then set_error
          (fmt "Attempting to set DAQ link run parameter : outside expectation (1-3)" (parN ∷ []))
      else write_reg card (daq ("EXT_CONTROL.RUN_PARAM" ◇ decimal parN)) rparam

  unfoldable pub set_daq_link_run_parameters_local : ℕ → M S (Unit {0})
  set_daq_link_run_parameters_local rparams = write_reg card (daq "EXT_CONTROL.RUN_PARAMS") rparams

  -- The RPC methods.
  unfoldable pub enable_daq_link : Request → M S (Unit {0})
  enable_daq_link q = enable_daq_link_local (get_word q "enableMask")

  unfoldable pub set_zs : Request → M S (Unit {0})
  set_zs q = set_zs_local (flag q "enable")

  unfoldable pub reset_daq_link : Request → M S (Unit {0})
  reset_daq_link q = reset_daq_link_local (get_word q "davTO") (get_word q "ttsOverride")

  unfoldable pub set_daq_link_run_type : Request → M S (Unit {0})
  set_daq_link_run_type q = set_daq_link_run_type_local (get_word q "runType")

  unfoldable pub set_daq_link_run_parameter : Request → M S (Unit {0})
  set_daq_link_run_parameter q =
      set_daq_link_run_parameter_local (get_word q "parameterN" % 2 ^ 8)
        (get_word q "runParameter" % 2 ^ 8)

  unfoldable pub set_daq_link_run_parameters : Request → M S (Unit {0})
  set_daq_link_run_parameters q = set_daq_link_run_parameters_local (get_word q "runParameters")

  -- `configureDAQModule`; the requested run type is read and not used. `fuel` is that of the search
  -- for a phase.
  unfoldable pub configure_daq_module : ℕ → Request → M S (Unit {0})
  configure_daq_module fuel q = do
    sca_hard_reset_enable card false
    ttc_counter_reset_local card
    if flag q "doPhaseShift"
        then ttc_mmcm_phase_shift_local card fuel
            (record { relock = flag q "relock"; mode_bc0 = flag q "bc0LockPSMode"; scan = false })
        else pure tt
    set_l1a_enable_local card false
    disable_daq_link_local
    reset_daq_link_local 0x500 0x0
    enable_daq_link_local 0x4
    set_zs_local (flag q "enableZS")
    set_daq_link_run_type_local 0x0
    set_daq_link_run_parameters_local 0xfaac

  -- `enableDAQModule`; `ttcModuleResetLocal` does nothing.
  unfoldable pub enable_daq_module : Request → M S (Unit {0})
  enable_daq_module q = do
    enable_daq_link_local 0x4
    reset_daq_link_local 0x500 0x0
    set_zs_local (flag q "enableZS")
    set_l1a_enable_local card true
