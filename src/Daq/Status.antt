-- ===== src/Daq/Status.antt =====
-- src/amc/daq.cpp: what can be read of the DAQ link, and the RPC methods that reply with it.
use ctp7_modules.Prelude.{ℕ, ◌%◌, ◌^◌, String, Bool, not, ◌==◌, if◌then◌else◌}
use ctp7_modules.Effect.{Card, M, Request, get_word, flag, set_word, pure, ◌>>=◌, ◌>>◌, respond}
use ctp7_modules.Names.{decimal, ◌◇◌}
use ctp7_modules.Register.{read_reg}

abbrev pub daq : String → String
daq name = "GEM_AMC.DAQ." ◇ name

-- `uint32_t res = …; response->set_word("result", res);`
abbrev reply_word : {S : Type 0} → M S ℕ → M S (Unit {0})
reply_word m = m >>= (λ res. respond (set_word "result" res))

abbrev reply_bool : {S : Type 0} → M S Bool → M S (Unit {0})
reply_bool m = m >>= (λ res. respond (set_word "result" (if res then 1 else 0)))

module _ {S : Type 0} (card : Card S) where
  -- `bool(readReg(…))`
  abbrev read_flag : String → M S Bool
  read_flag name = do v ← read_reg card (daq name); pure (not (v == 0))

  unfoldable pub daq_link_ready_local : M S Bool
  daq_link_ready_local = read_flag "STATUS.DAQ_LINK_RDY"

  unfoldable pub daq_clock_locked_local : M S Bool
  daq_clock_locked_local = read_flag "STATUS.DAQ_CLK_LOCKED"

  unfoldable pub daq_ttc_ready_local : M S Bool
  daq_ttc_ready_local = read_flag "STATUS.TTC_RDY"

  -- Cut to a `uint8_t`.
  unfoldable pub daq_tts_state_local : M S ℕ
  daq_tts_state_local = do v ← read_reg card (daq "STATUS.TTS_STATE"); pure (v % 2 ^ 8)

  unfoldable pub daq_almost_full_local : M S Bool
  daq_almost_full_local = read_flag "STATUS.DAQ_AFULL"

  unfoldable pub l1a_fifo_is_empty_local : M S Bool
  l1a_fifo_is_empty_local = read_flag "STATUS.L1A_FIFO_IS_EMPTY"

  unfoldable pub l1a_fifo_is_almost_full_local : M S Bool
  l1a_fifo_is_almost_full_local = read_flag "STATUS.L1A_FIFO_IS_NEAR_FULL"

  unfoldable pub l1a_fifo_is_full_local : M S Bool
  l1a_fifo_is_full_local = read_flag "STATUS.L1A_FIFO_IS_FULL"

  unfoldable pub l1a_fifo_is_underflow_local : M S Bool
  l1a_fifo_is_underflow_local = read_flag "STATUS.L1A_FIFO_IS_UNDERFLOW"

  unfoldable pub get_daq_link_events_sent_local : M S ℕ
  get_daq_link_events_sent_local = read_reg card (daq "EXT_STATUS.EVT_SENT")

  unfoldable pub get_daq_link_l1a_id_local : M S ℕ
  get_daq_link_l1a_id_local = read_reg card (daq "EXT_STATUS.L1AID")

  unfoldable pub get_daq_link_disper_errors_local : M S ℕ
  get_daq_link_disper_errors_local = read_reg card (daq "EXT_STATUS.DISPER_ERR")

  unfoldable pub get_daq_link_nonidentifiable_errors_local : M S ℕ
  get_daq_link_nonidentifiable_errors_local = read_reg card (daq "EXT_STATUS.NOTINTABLE_ERR")

  unfoldable pub get_daq_link_input_mask_local : M S ℕ
  get_daq_link_input_mask_local = read_reg card (daq "CONTROL.INPUT_ENABLE_MASK")

  unfoldable pub get_daq_link_dav_timeout_local : M S ℕ
  get_daq_link_dav_timeout_local = read_reg card (daq "CONTROL.DAV_TIMEOUT")

  unfoldable pub get_daq_link_input_timeout_local : M S ℕ
  get_daq_link_input_timeout_local = read_reg card (daq "EXT_CONTROL.INPUT_TIMEOUT")

  unfoldable pub get_daq_link_run_type_local : M S ℕ
  get_daq_link_run_type_local = read_reg card (daq "EXT_CONTROL.RUN_TYPE")

  unfoldable pub get_daq_link_run_parameters_local : M S ℕ
  get_daq_link_run_parameters_local = read_reg card (daq "EXT_CONTROL.RUN_PARAMS")

  -- Both timers go into the reply as well.
  unfoldable pub get_daq_link_dav_timer_local : Bool → M S ℕ
  get_daq_link_dav_timer_local max = do
    maxtimer ← read_reg card (daq "EXT_STATUS.MAX_DAV_TIMER")
    lasttimer ← read_reg card (daq "EXT_STATUS.LAST_DAV_TIMER")
    respond (set_word "max" maxtimer)
    respond (set_word "last" lasttimer)
    pure (if max then maxtimer else lasttimer)

  unfoldable pub get_daq_link_run_parameter_local : ℕ → M S ℕ
  get_daq_link_run_parameter_local parameter =
      read_reg card (daq ("EXT_CONTROL.RUN_PARAM" ◇ decimal parameter))

  -- The RPC methods.
  unfoldable pub daq_link_ready_method : M S (Unit {0})
  daq_link_ready_method = reply_bool daq_link_ready_local

  unfoldable pub daq_clock_locked_method : M S (Unit {0})
  daq_clock_locked_method = reply_bool daq_clock_locked_local

  unfoldable pub daq_ttc_ready_method : M S (Unit {0})
  daq_ttc_ready_method = reply_bool daq_ttc_ready_local

  unfoldable pub daq_tts_state_method : M S (Unit {0})
  daq_tts_state_method = reply_word daq_tts_state_local

  unfoldable pub daq_almost_full_method : M S (Unit {0})
  daq_almost_full_method = reply_bool daq_almost_full_local

  unfoldable pub l1a_fifo_is_empty_method : M S (Unit {0})
  l1a_fifo_is_empty_method = reply_bool l1a_fifo_is_empty_local

  unfoldable pub l1a_fifo_is_almost_full_method : M S (Unit {0})
  l1a_fifo_is_almost_full_method = reply_bool l1a_fifo_is_almost_full_local

  unfoldable pub l1a_fifo_is_full_method : M S (Unit {0})
  l1a_fifo_is_full_method = reply_bool l1a_fifo_is_full_local

  unfoldable pub l1a_fifo_is_underflow_method : M S (Unit {0})
  l1a_fifo_is_underflow_method = reply_bool l1a_fifo_is_underflow_local

  unfoldable pub get_daq_link_events_sent_method : M S (Unit {0})
  get_daq_link_events_sent_method = reply_word get_daq_link_events_sent_local

  unfoldable pub get_daq_link_l1a_id_method : M S (Unit {0})
  get_daq_link_l1a_id_method = reply_word get_daq_link_l1a_id_local

  unfoldable pub get_daq_link_disper_errors_method : M S (Unit {0})
  get_daq_link_disper_errors_method = reply_word get_daq_link_disper_errors_local

  unfoldable pub get_daq_link_nonidentifiable_errors_method : M S (Unit {0})
  get_daq_link_nonidentifiable_errors_method = reply_word get_daq_link_nonidentifiable_errors_local

  unfoldable pub get_daq_link_input_mask_method : M S (Unit {0})
  get_daq_link_input_mask_method = reply_word get_daq_link_input_mask_local

  unfoldable pub get_daq_link_dav_timeout_method : M S (Unit {0})
  get_daq_link_dav_timeout_method = reply_word get_daq_link_dav_timeout_local

  unfoldable pub get_daq_link_input_timeout_method : M S (Unit {0})
  get_daq_link_input_timeout_method = reply_word get_daq_link_input_timeout_local

  unfoldable pub get_daq_link_run_type_method : M S (Unit {0})
  get_daq_link_run_type_method = reply_word get_daq_link_run_type_local

  unfoldable pub get_daq_link_run_parameters_method : M S (Unit {0})
  get_daq_link_run_parameters_method = reply_word get_daq_link_run_parameters_local

  unfoldable pub get_daq_link_dav_timer_method : Request → M S (Unit {0})
  get_daq_link_dav_timer_method q = reply_word (get_daq_link_dav_timer_local (flag q "max"))

  unfoldable pub get_daq_link_run_parameter_method : Request → M S (Unit {0})
  get_daq_link_run_parameter_method q =
      reply_word (get_daq_link_run_parameter_local (get_word q "parameter" % 2 ^ 8))
