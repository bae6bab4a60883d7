-- ===== src/Ttc.antt =====
-- src/amc/ttc.cpp: the lock of the PLL, the monitor, the counters and the switches of the trigger's
-- clock and commands, and their RPC methods. The search for a phase is in Shift and Phase.
pub mod Laws
pub mod Shift
pub mod Phase
use ctp7_modules.Prelude.{
  ℕ, zero, suc, ◌+◌, ◌/◌, ◌%◌, ◌^◌, String, List, [], ◌∷◌, Bool, ltb, not, ◌==◌, get_elem?, Option,
  none, some, if◌then◌else◌,
}
use ctp7_modules.Effect.{
  Card, M, Request, flag, get_word, set_word, pure, ◌>>=◌, ◌>>◌, respond, sleep_for,
}
use ctp7_modules.Names.{◌◇◌}
use ctp7_modules.Register.{read_reg, write_reg}

-- A `uint32_t` as the bound of a loop over `int`: from 2 ^ 31 on it is negative.
unfoldable pub rounds : ℕ → ℕ
rounds n = if ltb n (2 ^ 31) then n else 0

abbrev clock_status : String → String
clock_status name = "GEM_AMC.TTC.STATUS.CLK." ◇ name

-- The names of the counters, by the code of the command from 1 on.
abbrev pub counters : List String
counters =
    "L1A" ∷ "BC0" ∷ "EC0" ∷ "RESYNC" ∷ "OC0" ∷ "HARD_RESET" ∷ "CALPULSE" ∷ "START" ∷ "STOP"
    ∷ "TEST_SYNC" ∷ []

module _ {S : Type 0} (card : Card S) where
  unfoldable pub ttc_mmcm_reset_local : M S (Unit {0})
  ttc_mmcm_reset_local = write_reg card "GEM_AMC.TTC.CTRL.MMCM_RESET" 1

  -- One attempt: reset the PLL, wait 100 us, see if it is locked.
  unfoldable pub try_lock : M S Bool
  try_lock = do
    write_reg card "GEM_AMC.TTC.CTRL.PA_MANUAL_PLL_RESET" 1
    sleep_for card 100_000
    locked ← read_reg card (clock_status "PHASE_LOCKED")
    pure (not (locked == 0))

  unfoldable pub count_locks : ℕ → ℕ → M S ℕ
  count_locks zero lockCnt = pure lockCnt
  count_locks (suc left) lockCnt =
      try_lock >>= (λ locked. count_locks left (if locked then lockCnt + 1 else lockCnt))

  unfoldable pub check_pll_lock_local : ℕ → M S ℕ
  check_pll_lock_local readAttempts = count_locks (rounds readAttempts) 0

  unfoldable pub sum_reads : String → ℕ → ℕ → M S ℕ
  sum_reads name zero sum = pure sum
  sum_reads name (suc left) sum = read_reg card name >>= (λ v. sum_reads name left (sum + v))

  -- The four functions of a phase, whose two medians are means; `name` is the monitor's register.
  -- The quotient of two `double` is cut to a word by the caller, which is the quotient here as long
  -- as there are fewer than 2 ^ 21 reads.
  unfoldable pub phase_mean_local : String → ℕ → M S ℕ
  phase_mean_local name reads =
      if rounds reads == 0
      then read_reg card (clock_status (name ◇ "_MEAN"))
      else if reads == 1
      then read_reg card (clock_status name)
      else (sum_reads (clock_status name) reads 0 >>= (λ sum. pure (sum / reads)))

  unfoldable pub ttc_counter_reset_local : M S (Unit {0})
  ttc_counter_reset_local = write_reg card "GEM_AMC.TTC.CTRL.CNT_RESET" 1

  unfoldable pub get_l1a_enable_local : M S Bool
  get_l1a_enable_local = do v ← read_reg card "GEM_AMC.TTC.CTRL.L1A_ENABLE"; pure (not (v == 0))

  unfoldable pub set_l1a_enable_local : Bool → M S (Unit {0})
  set_l1a_enable_local enable =
      write_reg card "GEM_AMC.TTC.CTRL.L1A_ENABLE" (if enable then 1 else 0)

  unfoldable pub get_ttc_error_count_local : Bool → M S ℕ
  get_ttc_error_count_local single =
      if single
      then read_reg card "GEM_AMC.TTC.STATUS.TTC_SINGLE_ERROR_CNT"
      else read_reg card "GEM_AMC.TTC.STATUS.TTC_DOUBLE_ERROR_CNT"

  abbrev pub read_counter : String → M S ℕ
  read_counter name = read_reg card ("GEM_AMC.TTC.CMD_COUNTERS." ◇ name)

  -- All counters, each under its name, into the reply.
  unfoldable pub report_counters : List String → M S (Unit {0})
  report_counters [] = pure tt
  report_counters (name ∷ rest) =
      read_counter name >>= (λ v. respond (set_word name v) >> report_counters rest)

  -- The counter of the command, or all of them for an unknown code.
  unfoldable pub counter_of : Option String → M S ℕ
  counter_of (some name) = read_counter name
  counter_of none = report_counters counters >> read_counter "L1A"

  unfoldable pub get_ttc_counter_local : ℕ → M S ℕ
  get_ttc_counter_local zero = counter_of none
  get_ttc_counter_local (suc i) = counter_of (get_elem? counters i)

  unfoldable pub get_ttc_status_local : M S ℕ
  get_ttc_status_local = read_reg card "GEM_AMC.TTC.STATUS.BC0.LOCKED"

  unfoldable pub get_l1a_id_local : M S ℕ
  get_l1a_id_local = read_reg card "GEM_AMC.TTC.L1A_ID"

  unfoldable pub get_l1a_rate_local : M S ℕ
  get_l1a_rate_local = read_reg card "GEM_AMC.TTC.L1A_RATE"

  -- The RPC methods.
  unfoldable pub get_ttc_status : M S (Unit {0})
  get_ttc_status = get_ttc_status_local >>= (λ n. respond (set_word "result" n))

  unfoldable pub get_l1a_id : M S (Unit {0})
  get_l1a_id = get_l1a_id_local >>= (λ n. respond (set_word "result" n))

  unfoldable pub get_l1a_rate : M S (Unit {0})
  get_l1a_rate = get_l1a_rate_local >>= (λ n. respond (set_word "result" n))

  unfoldable pub check_pll_lock : Request → M S (Unit {0})
  check_pll_lock q =
      check_pll_lock_local (get_word q "readAttempts") >>= (λ n. respond (set_word "lockCnt" n))

  unfoldable pub get_phase : String → Request → M S (Unit {0})
  get_phase name q =
      phase_mean_local name (get_word q "reads") >>= (λ n. respond (set_word "phase" n))

  unfoldable pub set_l1a_enable : Request → M S (Unit {0})
  set_l1a_enable q = set_l1a_enable_local (flag q "enable")

  unfoldable pub get_l1a_enable : M S (Unit {0})
  get_l1a_enable = get_l1a_enable_local >>= (λ b. respond (set_word "result" (if b then 1 else 0)))

  unfoldable pub get_ttc_error_count : Request → M S (Unit {0})
  get_ttc_error_count q =
      get_ttc_error_count_local (flag q "single") >>= (λ n. respond (set_word "result" n))

  unfoldable pub get_ttc_counter : Request → M S (Unit {0})
  get_ttc_counter q =
      get_ttc_counter_local (get_word q "cmd" % 2 ^ 8) >>= (λ n. respond (set_word "result" n))
