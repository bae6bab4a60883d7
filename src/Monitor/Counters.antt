-- ===== src/Monitor/Counters.antt =====
-- src/daq_monitor.cpp: the counters of the clock, the trigger, the data acquisition and the
-- OptoHybrids.
use ctp7_modules.Prelude.{
  ℕ, ◌*◌, ◌%◌, ◌^◌, String, List, [], ◌∷◌, ◌==◌, if◌then◌else◌, map, bit_and, bit_or,
}
use ctp7_modules.Effect.{Card, M, Request, set_word, pure, ◌>>=◌, ◌>>◌, respond}
use ctp7_modules.Names.{◌◇◌}
use ctp7_modules.Register.{read_reg}
use ctp7_modules.Amc.Mask.{fw_version_check}
use ctp7_modules.Monitor.{oh_key, with_ohs, monitor_ohs, report_as, report_dead}

abbrev pub ttc_main : List (String × String)
ttc_main =
    ("MMCM_LOCKED", "GEM_AMC.TTC.STATUS.CLK.MMCM_LOCKED")
    ∷ ("TTC_SINGLE_ERROR_CNT", "GEM_AMC.TTC.STATUS.TTC_SINGLE_ERROR_CNT")
    ∷ ("BC0_LOCKED", "GEM_AMC.TTC.STATUS.BC0.LOCKED")
    ∷ ("L1A_ID", "GEM_AMC.TTC.L1A_ID")
    ∷ ("L1A_RATE", "GEM_AMC.TTC.L1A_RATE")
    ∷ []

abbrev pub daq_main : List (String × String)
daq_main =
    ("DAQ_ENABLE", "GEM_AMC.DAQ.CONTROL.DAQ_ENABLE")
    ∷ ("DAQ_LINK_READY", "GEM_AMC.DAQ.STATUS.DAQ_LINK_RDY")
    ∷ ("DAQ_LINK_AFULL", "GEM_AMC.DAQ.STATUS.DAQ_LINK_AFULL")
    ∷ ("DAQ_OFIFO_HAD_OFLOW", "GEM_AMC.DAQ.STATUS.DAQ_OUTPUT_FIFO_HAD_OVERFLOW")
    ∷ ("L1A_FIFO_HAD_OFLOW", "GEM_AMC.DAQ.STATUS.L1A_FIFO_HAD_OVERFLOW")
    ∷ ("L1A_FIFO_DATA_COUNT", "GEM_AMC.DAQ.EXT_STATUS.L1A_FIFO_DATA_CNT")
    ∷ ("DAQ_FIFO_DATA_COUNT", "GEM_AMC.DAQ.EXT_STATUS.DAQ_FIFO_DATA_CNT")
    ∷ ("EVENT_SENT", "GEM_AMC.DAQ.EXT_STATUS.EVT_SENT")
    ∷ ("TTS_STATE", "GEM_AMC.DAQ.STATUS.TTS_STATE")
    ∷ ("INPUT_ENABLE_MASK", "GEM_AMC.DAQ.CONTROL.INPUT_ENABLE_MASK")
    ∷ ("INPUT_AUTOKILL_MASK", "GEM_AMC.DAQ.STATUS.INPUT_AUTOKILL_MASK")
    ∷ []

-- The counters of a link of the trigger, in the order of the replies.
abbrev pub trigger_oh_names : List String
trigger_oh_names =
    "LINK0_MISSED_COMMA_CNT" ∷ "LINK1_MISSED_COMMA_CNT" ∷ "LINK0_OVERFLOW_CNT"
    ∷ "LINK1_OVERFLOW_CNT" ∷ "LINK0_UNDERFLOW_CNT" ∷ "LINK1_UNDERFLOW_CNT"
    ∷ "LINK0_SBIT_OVERFLOW_CNT" ∷ "LINK1_SBIT_OVERFLOW_CNT" ∷ []

abbrev pub daq_oh_names : List String
daq_oh_names =
    "STATUS.EVT_SIZE_ERR" ∷ "STATUS.EVENT_FIFO_HAD_OFLOW" ∷ "STATUS.INPUT_FIFO_HAD_OFLOW"
    ∷ "STATUS.INPUT_FIFO_HAD_UFLOW" ∷ "STATUS.VFAT_TOO_MANY" ∷ "STATUS.VFAT_NO_MARKER" ∷ []

-- Each counter under its own name below `base`.
abbrev pub oh_pairs : String → List String → ℕ → List (String × String)
oh_pairs base names ohN = map (λ name. (oh_key ohN name, base ◇ oh_key ohN name)) names

abbrev pub oh_keys : List String → ℕ → List String
oh_keys names ohN = map (oh_key ohN) names

-- The counters of `getmonOHmainLocal` behind the version.
abbrev pub oh_main_pairs : ℕ → List (String × String)
oh_main_pairs ohN =
    (oh_key ohN "EVENT_COUNTER", "GEM_AMC.DAQ." ◇ oh_key ohN "COUNTERS.EVN")
    ∷ (oh_key ohN "EVENT_RATE", "GEM_AMC.DAQ." ◇ oh_key ohN "COUNTERS.EVT_RATE")
    ∷ (oh_key ohN "GTX.TRK_ERR", "GEM_AMC.OH." ◇ oh_key ohN "COUNTERS.GTX_LINK.TRK_ERR")
    ∷ (oh_key ohN "GTX.TRG_ERR", "GEM_AMC.OH." ◇ oh_key ohN "COUNTERS.GTX_LINK.TRG_ERR")
    ∷ (oh_key ohN "GBT.TRK_ERR", "GEM_AMC.OH." ◇ oh_key ohN "COUNTERS.GBT_LINK.TRK_ERR")
    ∷ (oh_key ohN "CORR_VFAT_BLK_CNT", "GEM_AMC.DAQ." ◇ oh_key ohN "COUNTERS.CORRUPT_VFAT_BLK_CNT")
    ∷ (oh_key ohN "COUNTERS.SEU", "GEM_AMC.OH." ◇ oh_key ohN "COUNTERS.SEU")
    ∷ (oh_key ohN "STATUS.SEU", "GEM_AMC.OH." ◇ oh_key ohN "STATUS.SEU")
    ∷ []

-- The keys of a masked OptoHybrid.
abbrev pub oh_main_keys : List String
oh_main_keys =
    "FW_VERSION" ∷ "EVENT_COUNTER" ∷ "EVENT_RATE" ∷ "GTX.TRK_ERR" ∷ "GTX.TRG_ERR" ∷ "GBT.TRK_ERR"
    ∷ "CORR_VFAT_BLK_CNT" ∷ "COUNTERS.SEU" ∷ "STATUS.SEU" ∷ []

-- `t_fwver`, from the four parts of the version.
unfoldable pub pack_version : (major minor build generation : ℕ) → ℕ
pack_version major minor build generation =
    let v = bit_and 0xffffffff (bit_or 0x00ffffff (major * 2 ^ 24 % 2 ^ 32)) in
    let v' = bit_and v (bit_or 0xff00ffff (minor * 2 ^ 16 % 2 ^ 32)) in
    let v'' = bit_and v' (bit_or 0xffff00ff (build * 2 ^ 8 % 2 ^ 32)) in
    bit_and v'' (bit_or 0xffffff00 generation)

module _ {S : Type 0} (card : Card S) where
  unfoldable pub getmon_ttc_main : M S (Unit {0})
  getmon_ttc_main = report_as card ttc_main

  unfoldable pub getmon_daq_main : M S (Unit {0})
  getmon_daq_main = report_as card daq_main

  -- `getmonTRIGGERmainLocal`: nothing is replied for a masked OptoHybrid.
  unfoldable pub getmon_trigger_main_local : ℕ → ℕ → M S (Unit {0})
  getmon_trigger_main_local n ohMask = do
    report_as card (("OR_TRIGGER_RATE", "GEM_AMC.TRIGGER.STATUS.OR_TRIGGER_RATE") ∷ [])
    monitor_ohs card (λ ohN. pure tt)
        (λ ohN. report_as card (oh_pairs "GEM_AMC.TRIGGER." ("TRIGGER_RATE" ∷ []) ohN)) n ohMask

  unfoldable pub getmon_trigger_main : Request → M S (Unit {0})
  getmon_trigger_main = with_ohs card getmon_trigger_main_local

  unfoldable pub getmon_trigger_oh_main_local : ℕ → ℕ → M S (Unit {0})
  getmon_trigger_oh_main_local =
      monitor_ohs card (λ ohN. report_dead (oh_keys trigger_oh_names ohN))
        (λ ohN. report_as card (oh_pairs "GEM_AMC.TRIGGER." trigger_oh_names ohN))

  unfoldable pub getmon_trigger_oh_main : Request → M S (Unit {0})
  getmon_trigger_oh_main = with_ohs card getmon_trigger_oh_main_local

  unfoldable pub getmon_daq_oh_main_local : ℕ → ℕ → M S (Unit {0})
  getmon_daq_oh_main_local =
      monitor_ohs card (λ ohN. report_dead (oh_keys daq_oh_names ohN))
        (λ ohN. report_as card (oh_pairs "GEM_AMC.DAQ." daq_oh_names ohN))

  unfoldable pub getmon_daq_oh_main : Request → M S (Unit {0})
  getmon_daq_oh_main = with_ohs card getmon_daq_oh_main_local

  -- A part of the version, which is read once more for the log.
  unfoldable pub read_part : ℕ → String → M S ℕ
  read_part ohN part = do
    let t2 = "GEM_AMC.OH." ◇ oh_key ohN "FPGA.CONTROL.RELEASE.VERSION." ◇ part
    v ← read_reg card t2
    read_reg card t2
    pure v

  unfoldable pub report_version : ℕ → M S (Unit {0})
  report_version ohN = do
    fw ← fw_version_check card
    version ←
        if fw == 3
        then (do
          major ← read_part ohN "MAJOR"
          minor ← read_part ohN "MINOR"
          build ← read_part ohN "BUILD"
          generation ← read_part ohN "GENERATION"
          pure (pack_version major minor build generation))
        else read_reg card ("GEM_AMC.OH." ◇ oh_key ohN "STATUS.FW.VERSION")
    respond (set_word (oh_key ohN "FW_VERSION") version)

  unfoldable pub getmon_oh_main_local : ℕ → ℕ → M S (Unit {0})
  getmon_oh_main_local =
      monitor_ohs card (λ ohN. report_dead (oh_keys oh_main_keys ohN))
        (λ ohN. do report_version ohN; report_as card (oh_main_pairs ohN))

  unfoldable pub getmon_oh_main : Request → M S (Unit {0})
  getmon_oh_main = with_ohs card getmon_oh_main_local
