-- ===== src/Daq/Link/Laws.antt =====
-- The state in which the composite methods leave the module, over any register file.
use package.text.Mathlib.Text.{◌==◌ as str_eq}
use ctp7_modules.Prelude.{
  ℕ, ◌^◌, ◌<◌, String, List, Bool, true, false, if◌then◌else◌, ◌≡◌, refl, ◌∙◌, arith,
}
use ctp7_modules.Effect.{Card, Reply, Request, flag, idle, ok}
use ctp7_modules.Register.File.{RegisterFile}
use ctp7_modules.Ttc.{ttc_counter_reset_local, set_l1a_enable_local}
use ctp7_modules.Sca.Command.{sca_hard_reset_enable}
use ctp7_modules.Daq.Link.{
  enable_daq_link_local, disable_daq_link_local, set_zs_local, reset_daq_link_local,
  set_daq_link_input_timeout_local, set_daq_link_run_type_local, set_daq_link_run_parameters_local,
  configure_daq_module, enable_daq_module,
}

-- The registers that the two methods write.
pub record HasDaq (known : String → Bool) : Type 0 where
  pub has_enable : known "GEM_AMC.DAQ.CONTROL.DAQ_ENABLE" ≡ true
  pub has_reset : known "GEM_AMC.DAQ.CONTROL.RESET" ≡ true
  pub has_input_mask : known "GEM_AMC.DAQ.CONTROL.INPUT_ENABLE_MASK" ≡ true
  pub has_dav : known "GEM_AMC.DAQ.CONTROL.DAV_TIMEOUT" ≡ true
  pub has_zs : known "GEM_AMC.DAQ.CONTROL.ZERO_SUPPRESSION_EN" ≡ true
  pub has_l1a : known "GEM_AMC.TTC.CTRL.L1A_ENABLE" ≡ true
  pub has_type : known "GEM_AMC.DAQ.EXT_CONTROL.RUN_TYPE" ≡ true
  pub has_params : known "GEM_AMC.DAQ.EXT_CONTROL.RUN_PARAMS" ≡ true
  pub has_sca : known "GEM_AMC.SLOW_CONTROL.SCA.CTRL.TTC_HARD_RESET_EN" ≡ true
  pub has_cnt : known "GEM_AMC.TTC.CTRL.CNT_RESET" ≡ true

abbrev bit_of : Bool → ℕ
bit_of b = if b then 1 else 0

bit_of-lt : (b : Bool) → bit_of b < 2 ^ 32
bit_of-lt true = omega arith
bit_of-lt false = omega arith

module _ {S : Type 0} (card : Card S) (known : String → Bool) (file : RegisterFile card known)
    (has : HasDaq known) where
  open file use {get, put, reads, writes, get-put}
  open has use {
    has_enable, has_reset, has_input_mask, has_dav, has_zs, has_l1a, has_type, has_params, has_sca,
    has_cnt,
  }

  kept :
      (h : S) (name other : String) (v : ℕ)
      → known name ≡ true
      → known other ≡ true
      → str_eq name other ≡ false
      → v < 2 ^ 32
      → get (put h name v) other ≡ get h other
  kept h name other v k k' apart fits = get-put h name other v k k' fits ∙ rw apart refl

  hit :
      (h : S) (name : String) (v : ℕ)
      → known name ≡ true
      → str_eq name name ≡ true
      → v < 2 ^ 32
      → get (put h name v) name ≡ v
  hit h name v k same fits = get-put h name name v k k fits ∙ rw same refl

  -- The state behind `enableDAQModule`.
  abbrev enabled : Bool → S → S
  enabled zs h =
      let h1 = put h "GEM_AMC.DAQ.CONTROL.DAQ_ENABLE" 1 in
      let h2 = put (put h1 "GEM_AMC.DAQ.CONTROL.RESET" 1) "GEM_AMC.DAQ.CONTROL.RESET" 0 in
      let h3 =
        put (put h2 "GEM_AMC.DAQ.CONTROL.INPUT_ENABLE_MASK" 0) "GEM_AMC.DAQ.CONTROL.DAQ_ENABLE" 0 in
      let h4 = put h3 "GEM_AMC.DAQ.CONTROL.DAV_TIMEOUT" 0x500 in
      put (put h4 "GEM_AMC.DAQ.CONTROL.ZERO_SUPPRESSION_EN" (bit_of zs))
        "GEM_AMC.TTC.CTRL.L1A_ENABLE" 1

  -- Over registers that keep what is written to them, enableDAQModule returns with the DAQ link
  -- disabled, no input enabled and the L1A enabled.
  pub enable_daq_module-disabled :
      (q : Request) (h : S) (r : List Reply)
      → (h' : S) × (enable_daq_module card q (idle h r) ≡ (ok tt, idle h' r))
        × (get h' "GEM_AMC.DAQ.CONTROL.DAQ_ENABLE" ≡ 0)
        × (get h' "GEM_AMC.DAQ.CONTROL.INPUT_ENABLE_MASK" ≡ 0)
        × (get h' "GEM_AMC.TTC.CTRL.L1A_ENABLE" ≡ 1)
  unfolding enable_daq_module enable_daq_link_local reset_daq_link_local disable_daq_link_local
      set_daq_link_input_timeout_local set_zs_local set_l1a_enable_local
  enable_daq_module-disabled q h r = (
    enabled (flag q "enableZS") h,
    rw
        (
          writes _ _ _ _ has_enable,
          writes _ _ _ _ has_reset,
          writes _ _ _ _ has_reset,
          writes _ _ _ _ has_input_mask,
          writes _ _ _ _ has_enable,
          writes _ _ _ _ has_dav,
          writes _ _ _ _ has_zs,
          writes _ _ _ _ has_l1a,
        )
        refl,
    kept _ _ _ _ has_l1a has_enable refl (omega arith)
        ∙ kept _ _ _ _ has_zs has_enable refl (bit_of-lt (flag q "enableZS"))
        ∙ kept _ _ _ _ has_dav has_enable refl (omega arith)
        ∙ hit _ _ _ has_enable refl (omega arith),
    kept _ _ _ _ has_l1a has_input_mask refl (omega arith)
        ∙ kept _ _ _ _ has_zs has_input_mask refl (bit_of-lt (flag q "enableZS"))
        ∙ kept _ _ _ _ has_dav has_input_mask refl (omega arith)
        ∙ kept _ _ _ _ has_enable has_input_mask refl (omega arith)
        ∙ hit _ _ _ has_input_mask refl (omega arith),
    hit _ _ _ has_l1a refl (omega arith),
  )

  -- The state behind `configureDAQModule`.
  abbrev configured : Bool → S → S
  configured zs h =
      let h1 = put h "GEM_AMC.SLOW_CONTROL.SCA.CTRL.TTC_HARD_RESET_EN" 0 in
      let h2 = put h1 "GEM_AMC.TTC.CTRL.CNT_RESET" 1 in
      let h3 = put h2 "GEM_AMC.TTC.CTRL.L1A_ENABLE" 0 in
      let h4 = put h3 "GEM_AMC.DAQ.CONTROL.INPUT_ENABLE_MASK" 0 in
      let h5 = put h4 "GEM_AMC.DAQ.CONTROL.DAQ_ENABLE" 0 in
      let h6 = put h5 "GEM_AMC.DAQ.CONTROL.RESET" 1 in
      let h7 = put h6 "GEM_AMC.DAQ.CONTROL.RESET" 0 in
      let h8 = put h7 "GEM_AMC.DAQ.CONTROL.INPUT_ENABLE_MASK" 0 in
      let h9 = put h8 "GEM_AMC.DAQ.CONTROL.DAQ_ENABLE" 0 in
      let h10 = put h9 "GEM_AMC.DAQ.CONTROL.DAV_TIMEOUT" 0x500 in
      let h11 = put h10 "GEM_AMC.DAQ.CONTROL.DAQ_ENABLE" 1 in
      let h12 = put h11 "GEM_AMC.DAQ.CONTROL.ZERO_SUPPRESSION_EN" (bit_of zs) in
      let h13 = put h12 "GEM_AMC.DAQ.EXT_CONTROL.RUN_TYPE" 0 in
      put h13 "GEM_AMC.DAQ.EXT_CONTROL.RUN_PARAMS" 0xfaac

  -- Over registers that keep what is written to them, configureDAQModule without a phase shift
  -- returns with the DAQ link enabled, no input enabled, the L1A disabled, the zero suppression as
  -- requested, the run type 0 and the run parameters 0xfaac, whatever run type the request asks
  -- for.
  pub configure_daq_module-configured :
      (fuel : ℕ) (q : Request) (h : S) (r : List Reply)
      → flag q "doPhaseShift" ≡ false
      → (h' : S) × (configure_daq_module card fuel q (idle h r) ≡ (ok tt, idle h' r))
        × (get h' "GEM_AMC.DAQ.CONTROL.DAQ_ENABLE" ≡ 1)
        × (get h' "GEM_AMC.DAQ.CONTROL.INPUT_ENABLE_MASK" ≡ 0)
        × (get h' "GEM_AMC.TTC.CTRL.L1A_ENABLE" ≡ 0)
        × (get h' "GEM_AMC.DAQ.CONTROL.ZERO_SUPPRESSION_EN" ≡ (if flag q "enableZS" then 1 else 0))
        × (get h' "GEM_AMC.DAQ.EXT_CONTROL.RUN_TYPE" ≡ 0)
        × (get h' "GEM_AMC.DAQ.EXT_CONTROL.RUN_PARAMS" ≡ 0xfaac)
  unfolding configure_daq_module sca_hard_reset_enable ttc_counter_reset_local enable_daq_link_local
      reset_daq_link_local disable_daq_link_local set_daq_link_input_timeout_local set_zs_local
      set_l1a_enable_local set_daq_link_run_type_local set_daq_link_run_parameters_local
  configure_daq_module-configured fuel q h r unshifted = (
    configured (flag q "enableZS") h,
    rw
        (
          writes _ _ _ _ has_sca,
          writes _ _ _ _ has_cnt,
          unshifted,
          writes _ _ _ _ has_l1a,
          writes _ _ _ _ has_input_mask,
          writes _ _ _ _ has_enable,
          writes _ _ _ _ has_reset,
          writes _ _ _ _ has_reset,
          writes _ _ _ _ has_input_mask,
          writes _ _ _ _ has_enable,
          writes _ _ _ _ has_dav,
          writes _ _ _ _ has_enable,
          writes _ _ _ _ has_zs,
          writes _ _ _ _ has_type,
          writes _ _ _ _ has_params,
        )
        refl,
    kept _ _ _ _ has_params has_enable refl (omega arith)
        ∙ kept _ _ _ _ has_type has_enable refl (omega arith)
        ∙ kept _ _ _ _ has_zs has_enable refl (bit_of-lt (flag q "enableZS"))
        ∙ hit _ _ _ has_enable refl (omega arith),
    kept _ _ _ _ has_params has_input_mask refl (omega arith)
        ∙ kept _ _ _ _ has_type has_input_mask refl (omega arith)
        ∙ kept _ _ _ _ has_zs has_input_mask refl (bit_of-lt (flag q "enableZS"))
        ∙ kept _ _ _ _ has_enable has_input_mask refl (omega arith)
        ∙ kept _ _ _ _ has_dav has_input_mask refl (omega arith)
        ∙ kept _ _ _ _ has_enable has_input_mask refl (omega arith)
        ∙ hit _ _ _ has_input_mask refl (omega arith),
    kept _ _ _ _ has_params has_l1a refl (omega arith)
        ∙ kept _ _ _ _ has_type has_l1a refl (omega arith)
        ∙ kept _ _ _ _ has_zs has_l1a refl (bit_of-lt (flag q "enableZS"))
        ∙ kept _ _ _ _ has_enable has_l1a refl (omega arith)
        ∙ kept _ _ _ _ has_dav has_l1a refl (omega arith)
        ∙ kept _ _ _ _ has_enable has_l1a refl (omega arith)
        ∙ kept _ _ _ _ has_input_mask has_l1a refl (omega arith)
        ∙ kept _ _ _ _ has_reset has_l1a refl (omega arith)
        ∙ kept _ _ _ _ has_reset has_l1a refl (omega arith)
        ∙ kept _ _ _ _ has_enable has_l1a refl (omega arith)
        ∙ kept _ _ _ _ has_input_mask has_l1a refl (omega arith)
        ∙ hit _ _ _ has_l1a refl (omega arith),
    kept _ _ _ _ has_params has_zs refl (omega arith)
        ∙ kept _ _ _ _ has_type has_zs refl (omega arith)
        ∙ hit _ _ _ has_zs refl (bit_of-lt (flag q "enableZS")),
    kept _ _ _ _ has_params has_type refl (omega arith) ∙ hit _ _ _ has_type refl (omega arith),
    hit _ _ _ has_params refl (omega arith),
  )
