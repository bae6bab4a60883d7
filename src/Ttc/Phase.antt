-- ===== src/Ttc/Phase.antt =====
-- src/amc/ttc.cpp, `ttcMMCMPhaseShiftLocal`: the search on the hardware.
pub mod Laws
use ctp7_modules.Prelude.{
  ℕ, zero, suc, ◌+◌, ◌%◌, ◌^◌, String, List, [], ◌∷◌, Bool, true, false, not, ◌&&◌, ◌||◌, Option,
  none, some, ltb, ◌==◌, if◌then◌else◌, get_elem?,
}
use ctp7_modules.Effect.{
  Card, M, Request, flag, fmt, text, fault, spinning, pure, stop, ◌>>=◌, ◌>>◌, set_error, sleep_for,
}
use ctp7_modules.Names.{◌◇◌}
use ctp7_modules.Register.{read_reg, write_reg}
use ctp7_modules.Ttc.{check_pll_lock_local}
use ctp7_modules.Ttc.Shift.{
  Mode, Search, Turn, forward, backward, Decision, mmcm_shift_table, next_gth, next_mmcm, decide,
  end_shift, pll_lock_read_attempts,
}

abbrev pub ctrl : String → String
ctrl name = "GEM_AMC.TTC.CTRL." ◇ name

-- The registers that are written and read back.
abbrev pub ctrl_registers : List (String × ℕ)
ctrl_registers =
    ("DISABLE_PHASE_ALIGNMENT", 1)
    ∷ ("PA_DISABLE_GTH_PHASE_TRACKING", 1)
    ∷ ("PA_MANUAL_OVERRIDE", 1)
    ∷ ("PA_MANUAL_SHIFT_DIR", 1)
    ∷ ("PA_GTH_MANUAL_OVERRIDE", 1)
    ∷ ("PA_GTH_MANUAL_SHIFT_DIR", 0)
    ∷ ("PA_GTH_MANUAL_SHIFT_STEP", 1)
    ∷ ("PA_GTH_MANUAL_SEL_OVERRIDE", 1)
    ∷ ("PA_GTH_MANUAL_COMBINED", 1)
    ∷ ("GTH_TXDLYBYPASS", 1)
    ∷ ("PA_MANUAL_PLL_RESET", 1)
    ∷ ("CNT_RESET", 1)
    ∷ []

unfoldable pub read_attempts : Mode → ℕ
read_attempts mode = if not mode.mode_bc0 || mode.scan then pll_lock_read_attempts else 1

unfoldable pub max_shift : Mode → ℕ
max_shift mode = if mode.scan then 23040 else 11520

-- The variables before the first shift.
abbrev pub start : ℕ → ℕ → Search
start mmcm gth = record {
  gth_shift_cnt = gth;
  mmcm_shift_cnt = mmcm;
  first_unlock_found = false;
  next_lock_found = false;
  best_lock_found = false;
  reversing_for_lock = false;
  n_good_locks = 0;
  n_shifts_since_lock = 0;
  n_bad_locks = 0;
}

module _ {S : Type 0} (card : Card S) where
  -- The writes with their reads back: `false` ends the function.
  unfoldable pub write_back : List (String × ℕ) → M S Bool
  write_back [] = pure true
  write_back ((name, value) ∷ rest) =
      write_reg card (ctrl name) value
      >> (sleep_for card 250_000
          >> (read_reg card (ctrl name) >>= (λ readback. elim (readback == value) [
            | true ↦ write_back rest
            | false ↦
                set_error (fmt ("Readback of " ◇ ctrl name ◇ " failed") (readback ∷ value ∷ []))
                >> pure false
          ])))

  -- `while (gthShiftCnt != tmpGthShiftCnt)`, with fuel: the source sets no bound.
  unfoldable pub repeat_shift : ℕ → ℕ → ℕ → M S (Unit {0})
  repeat_shift zero gthShiftCnt tmpGthShiftCnt = stop spinning
  repeat_shift (suc fuel) gthShiftCnt tmpGthShiftCnt = elim (gthShiftCnt == tmpGthShiftCnt) [
    | true ↦ pure tt
    | false ↦
        write_reg card (ctrl "PA_GTH_MANUAL_SHIFT_EN") 1
        >> (read_reg card "GEM_AMC.TTC.STATUS.CLK.PA_MANUAL_GTH_SHIFT_CNT"
            >>= repeat_shift fuel gthShiftCnt)
  ]

  -- `mmcmShiftTable[gthShiftCnt + 1]`: outside the table it is undefined.
  unfoldable pub shifts_mmcm : ℕ → M S Bool
  shifts_mmcm gthShiftCnt = elim (get_elem? mmcm_shift_table (gthShiftCnt + 1)) [
    | none ↦ stop fault
    | some b ↦ pure b
  ]

  -- The shift and the expected counts behind it.
  unfoldable pub shift_once : ℕ → Search → M S Search
  shift_once fuel s = do
    write_reg card (ctrl "CNT_RESET") 1
    write_reg card (ctrl "PA_GTH_MANUAL_SHIFT_EN") 1
    let gth = next_gth s.reversing_for_lock s.gth_shift_cnt
    tmpGthShiftCnt ← read_reg card "GEM_AMC.TTC.STATUS.CLK.PA_MANUAL_GTH_SHIFT_CNT"
    read_reg card "GEM_AMC.TTC.STATUS.CLK.PA_MANUAL_SHIFT_CNT"
    repeat_shift fuel gth tmpGthShiftCnt
    both ← shifts_mmcm gth
    if both
        then (do
          read_reg card "TTC.STATUS.CLK.PA_MANUAL_SHIFT_CNT"
          pure (record s {
            gth_shift_cnt = gth;
            mmcm_shift_cnt = next_mmcm s.reversing_for_lock s.mmcm_shift_cnt;
          }))
        else pure (record s { gth_shift_cnt = gth })

  -- The locks behind the shift: that of BC0, and that of the PLL at all attempts.
  unfoldable pub look_at_locks : Mode → M S (Bool × Bool)
  look_at_locks mode = do
    pllLockCnt ← check_pll_lock_local card (read_attempts mode)
    read_reg card "GEM_AMC.TTC.STATUS.CLK.TTC_PM_PHASE_MEAN"
    read_reg card "TTC.STATUS.CLK.GTH_PM_PHASE_MEAN"
    bc0Locked ← read_reg card "GEM_AMC.TTC.STATUS.BC0.LOCKED"
    pure (not (bc0Locked == 0), not (ltb pllLockCnt pll_lock_read_attempts))

  unfoldable pub turn : Turn → M S (Unit {0})
  turn forward = do
    write_reg card (ctrl "PA_MANUAL_SHIFT_DIR") 1
    write_reg card (ctrl "PA_GTH_MANUAL_SHIFT_DIR") 0
  turn backward = do
    write_reg card (ctrl "PA_MANUAL_SHIFT_DIR") 0
    write_reg card (ctrl "PA_GTH_MANUAL_SHIFT_DIR") 1

  unfoldable pub take_turns : List Turn → M S (Unit {0})
  take_turns [] = pure tt
  take_turns (t ∷ rest) = turn t >> take_turns rest

  -- One round of the loop: what it decided, the turns taken.
  unfoldable pub shift_round : ℕ → Mode → Search → M S Decision
  shift_round fuel mode s = do
    s' ← shift_once fuel s
    locks ← look_at_locks mode
    take_turns (decide mode locks.0 locks.1 s').turns
    pure (decide mode locks.0 locks.1 s')

  -- `for (int i = 0; i < maxShift; ++i)`, `left` rounds.
  unfoldable pub shift_loop : ℕ → Mode → ℕ → Search → M S Search
  shift_loop fuel mode zero s = pure s
  shift_loop fuel mode (suc left) s = shift_round fuel mode s >>= (λ d. elim d.ended [
    | true ↦ pure d.search
    | false ↦ shift_loop fuel mode left (end_shift d.search)
  ])

  unfoldable pub report_lock : Search → M S (Unit {0})
  report_lock s =
      if s.best_lock_found
      then write_reg card (ctrl "MMCM_RESET") 1
      else set_error (text "Unable to find lock")

  unfoldable pub search_phase : ℕ → Mode → M S (Unit {0})
  search_phase fuel mode = do
    mmcm ← read_reg card "GEM_AMC.TTC.STATUS.CLK.PA_MANUAL_SHIFT_CNT"
    gth ← read_reg card "GEM_AMC.TTC.STATUS.CLK.PA_MANUAL_GTH_SHIFT_CNT"
    check_pll_lock_local card (read_attempts mode)
    report_lock (← shift_loop fuel mode (max_shift mode) (start mmcm gth))

  unfoldable pub ttc_mmcm_phase_shift_local : ℕ → Mode → M S (Unit {0})
  ttc_mmcm_phase_shift_local fuel mode = do
    written ← write_back ctrl_registers
    if written
        then (do
          aligned ← read_reg card (ctrl "DISABLE_PHASE_ALIGNMENT")
          if aligned == 0
              then set_error (text "Automatic phase alignment is turned off!!")
              else search_phase fuel mode)
        else pure tt

  -- The RPC method.
  unfoldable pub ttc_mmcm_phase_shift : ℕ → Request → M S (Unit {0})
  ttc_mmcm_phase_shift fuel q =
      ttc_mmcm_phase_shift_local fuel
        (record { relock = flag q "relock"; mode_bc0 = flag q "modeBC0"; scan = flag q "scan" })
