-- ===== src/Monitor/Links.antt =====
-- src/daq_monitor.cpp: the links to the GBT chips and to the VFATs.
use ctp7_modules.Prelude.{
  ℕ, ◌+◌, String, List, [], ◌∷◌, Bool, false, ◌||◌, zero, suc, if◌then◌else◌,
}
use ctp7_modules.Effect.{
  Card, M, Request, flag, text, set_word, set_string, pure, ◌>>=◌, ◌>>◌, respond, sleep_for,
}
use ctp7_modules.Names.{decimal, ◌◇◌}
use ctp7_modules.Constants.{gbts_per_oh, vfats_per_oh}
use ctp7_modules.Register.{read_reg, write_reg}
use ctp7_modules.Monitor.{oh_key, int_ltb, int_rounds, count_from, report_as, requested_ohs}

abbrev pub link_reset : String
link_reset = "GEM_AMC.GEM_SYSTEM.CTRL.LINK_RESET"

abbrev gbt_pair : ℕ → ℕ → String → String × String
gbt_pair ohN gbtN name = (
  oh_key ohN ("GBT" ◇ decimal gbtN ◇ "." ◇ name),
  "GEM_AMC.OH_LINKS." ◇ oh_key ohN ("GBT" ◇ decimal gbtN ◇ "_" ◇ name),
)

abbrev pub gbt_pairs : ℕ → ℕ → List (String × String)
gbt_pairs ohN gbtN =
    gbt_pair ohN gbtN "READY"
    ∷ gbt_pair ohN gbtN "WAS_NOT_READY"
    ∷ gbt_pair ohN gbtN "RX_HAD_OVERFLOW"
    ∷ gbt_pair ohN gbtN "RX_HAD_UNDERFLOW"
    ∷ []

-- The key of a counter of a VFAT; it is also the end of the register's name.
abbrev pub vfat_key : ℕ → ℕ → String → String
vfat_key ohN vfatN name = oh_key ohN ("VFAT" ◇ decimal vfatN ◇ "." ◇ name)

abbrev vfat_pair : ℕ → ℕ → String → String × String
vfat_pair ohN vfatN name = (vfat_key ohN vfatN name, "GEM_AMC.OH_LINKS." ◇ vfat_key ohN vfatN name)

abbrev pub sync_errors : ℕ → ℕ → String
sync_errors ohN vfatN = "GEM_AMC.OH_LINKS." ◇ vfat_key ohN vfatN "SYNC_ERR_CNT"

abbrev pub vfat_pairs : ℕ → ℕ → List (String × String)
vfat_pairs ohN vfatN =
    vfat_pair ohN vfatN "DAQ_EVENT_CNT" ∷ vfat_pair ohN vfatN "DAQ_CRC_ERROR_CNT" ∷ []

module _ {S : Type 0} (card : Card S) where
  unfoldable pub getmon_gbt_link_local : ℕ → Bool → M S (Unit {0})
  getmon_gbt_link_local n doReset = do
    if doReset then write_reg card link_reset 0x1 else pure tt
    count_from (λ ohN. count_from (λ gbtN. report_as card (gbt_pairs ohN gbtN)) 0 gbts_per_oh) 0
        (int_rounds n)

  abbrev reset_asked : Request → Bool
  reset_asked request = if request.key_exists "doReset" then flag request "doReset" else false

  unfoldable pub getmon_gbt_link : Request → M S (Unit {0})
  getmon_gbt_link request = do
    n ← requested_ohs card request
    getmon_gbt_link_local n (reset_asked request)

  -- One VFAT: whether its `int` of synchronisation errors is positive.
  unfoldable pub report_vfat_link : ℕ → ℕ → M S Bool
  report_vfat_link ohN vfatN = do
    nSyncErrs ← read_reg card (sync_errors ohN vfatN)
    respond (set_word (vfat_key ohN vfatN "SYNC_ERR_CNT") nSyncErrs)
    report_as card (vfat_pairs ohN vfatN)
    pure (int_ltb 0 nSyncErrs)

  -- The loops over the VFATs of one OptoHybrid and over the OptoHybrids, `left` of them, with the
  -- flag `vfatOutOfSync`.
  unfoldable pub vfat_links : ℕ → ℕ → ℕ → Bool → M S Bool
  vfat_links ohN vfatN zero outOfSync = pure outOfSync
  vfat_links ohN vfatN (suc left) outOfSync =
      report_vfat_link ohN vfatN >>= (λ bad. vfat_links ohN (vfatN + 1) left (bad || outOfSync))

  unfoldable pub oh_vfat_links : ℕ → ℕ → Bool → M S Bool
  oh_vfat_links ohN zero outOfSync = pure outOfSync
  oh_vfat_links ohN (suc left) outOfSync =
      vfat_links ohN 0 vfats_per_oh outOfSync >>= oh_vfat_links (ohN + 1) left

  unfoldable pub getmon_vfat_link_local : ℕ → Bool → M S (Unit {0})
  getmon_vfat_link_local n doReset = do
    if doReset then write_reg card link_reset 0x1 >> sleep_for card 92_000 else pure tt
    outOfSync ← oh_vfat_links 0 (int_rounds n) false
    if outOfSync
        then respond (set_string "warning" (text "One or more VFATs found to be out of sync\n"))
        else pure tt

  unfoldable pub getmon_vfat_link : Request → M S (Unit {0})
  getmon_vfat_link request = do
    n ← requested_ohs card request
    getmon_vfat_link_local n (reset_asked request)

  unfoldable pub getmon_oh_link : Request → M S (Unit {0})
  getmon_oh_link request = do
    n ← requested_ohs card request
    getmon_gbt_link_local n (reset_asked request)
    getmon_vfat_link_local n (reset_asked request)
