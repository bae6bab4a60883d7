-- ===== src/Ttc/Shift.antt =====
-- src/amc/ttc.cpp, `ttcMMCMPhaseShiftLocal`: the state of the search for a phase with a lock, and
-- what one shift decides. The branch behind `else if (true)` is never reached, and the variable
-- `totalShiftCount` is never read: neither is here.
pub mod Laws
use ctp7_modules.Prelude.{
  ℕ, zero, suc, ◌+◌, ◌-◌, ◌%◌, ◌^◌, List, [], ◌∷◌, ◌++◌, Bool, true, false, not, ◌&&◌, ◌||◌, Option,
  ltb, ◌==◌, if◌then◌else◌, get_elem?,
}

abbrev pub pll_lock_read_attempts : ℕ
pll_lock_read_attempts = 10

-- The arguments.
pub record Mode : Type 0 where
  pub relock : Bool
  pub mode_bc0 : Bool
  pub scan : Bool

-- The variables that last from shift to shift.
pub record Search : Type 0 where
  pub gth_shift_cnt : ℕ
  pub mmcm_shift_cnt : ℕ
  pub first_unlock_found : Bool
  pub next_lock_found : Bool
  pub best_lock_found : Bool
  pub reversing_for_lock : Bool
  pub n_good_locks : ℕ
  pub n_shifts_since_lock : ℕ
  pub n_bad_locks : ℕ

-- The direction of the shifts, which two registers set.
pub data Turn : Type 0 where
  forward backward : Turn

-- What a shift decides: the variables, the turns in their order, and if the search ends (`break`).
pub record Decision : Type 0 where
  pub search : Search
  pub turns : List Turn
  pub ended : Bool

abbrev pub mmcm_shift_table : List Bool
mmcm_shift_table =
    false ∷ false ∷ false ∷ true ∷ false ∷ false ∷ false ∷ false ∷ false ∷ true ∷ false ∷ false
    ∷ false ∷ false ∷ false ∷ true ∷ false ∷ false ∷ false ∷ false ∷ true ∷ false ∷ false ∷ false
    ∷ false ∷ false ∷ true ∷ false ∷ false ∷ false ∷ false ∷ false ∷ true ∷ false ∷ false ∷ false
    ∷ false ∷ false ∷ true ∷ false ∷ false ∷ []

-- The expected count of the shifts of the transceivers, modulo 40.
unfoldable pub next_gth : Bool → ℕ → ℕ
next_gth reversing gthShiftCnt =
    if not reversing && (gthShiftCnt == 39)
    then 0
    else if reversing && (gthShiftCnt == 0)
    then 39
    else if reversing
    then (gthShiftCnt + 2 ^ 32 - 1) % 2 ^ 32
    else (gthShiftCnt + 1) % 2 ^ 32

-- The expected count of the shifts of the MMCM, modulo 2 ^ 16.
unfoldable pub next_mmcm : Bool → ℕ → ℕ
next_mmcm reversing mmcmShiftCnt =
    if not reversing && (mmcmShiftCnt == 0xffff)
    then 0
    else if reversing && (mmcmShiftCnt == 0)
    then 0xffff
    else if reversing
    then (mmcmShiftCnt + 2 ^ 32 - 1) % 2 ^ 32
    else (mmcmShiftCnt + 1) % 2 ^ 32

-- Good and bad locks in a row, before the first unlock.
unfoldable pub count_lock : Bool → Search → Search
count_lock locked s =
    if locked
    then record s { best_lock_found = false; n_bad_locks = 0; n_good_locks = s.n_good_locks + 1 }
    else record s { best_lock_found = false; n_bad_locks = s.n_bad_locks + 1; n_good_locks = 0 }

abbrev pub go_on : Search → Decision
go_on s = record { search = s; turns = []; ended = false }

-- Back to the normal direction behind a bad lock, or backwards behind so many good ones.
unfoldable pub turn_round : ℕ → Search → Decision
turn_round turn_at s =
    if s.reversing_for_lock && ltb 0 s.n_bad_locks
    then record {
      search = record s { best_lock_found = false; reversing_for_lock = false; n_good_locks = 0 };
      turns = forward ∷ [];
      ended = false;
    }
    else if s.n_good_locks == turn_at
    then record {
      search = record s { reversing_for_lock = true };
      turns = backward ∷ [];
      ended = false;
    }
    else go_on s

-- The best lock is in the middle of the good ones.
unfoldable pub find_best : Bool → ℕ → Decision → Decision
find_best scan best_at d =
    if d.search.reversing_for_lock && (d.search.n_good_locks == best_at)
    then (if scan
        then record {
          search = record d.search {
            best_lock_found = false;
            reversing_for_lock = false;
            n_good_locks = 0;
          };
          turns = d.turns ++ forward ∷ [];
          ended = false;
        }
        else record d { search = record d.search { best_lock_found = true }; ended = true })
    else d

-- The end of the search behind the first unlock.
unfoldable pub finish : Bool → Bool → Search → Decision
finish scan reached s =
    if reached
    then (if scan
        then go_on (record s {
          best_lock_found = true;
          next_lock_found = false;
          first_unlock_found = false;
          n_good_locks = 0;
          n_bad_locks = 0;
          n_shifts_since_lock = 0;
        })
        else record { search = record s { best_lock_found = true }; turns = []; ended = true })
    else go_on s

-- A lock behind the first unlock.
unfoldable pub next_lock : Search → Search
next_lock s =
    if s.next_lock_found
    then record s { n_good_locks = s.n_good_locks + 1 }
    else record s { next_lock_found = true; n_bad_locks = 0; n_good_locks = s.n_good_locks + 1 }

-- `if (modeBC0)`.
unfoldable pub decide_bc0 : Mode → Bool → Search → Decision
decide_bc0 mode locked s =
    if not s.first_unlock_found
    then (let s' = count_lock locked s in
        if mode.relock
        then go_on (if ltb 100 s'.n_bad_locks then record s' { first_unlock_found = true } else s')
        else find_best mode.scan 300 (turn_round 200 s'))
    else (let s' = if locked then next_lock s else record s { n_bad_locks = s.n_bad_locks + 1 } in
        finish mode.scan (s'.n_good_locks == 1920) s')

-- By the lock of the PLL: `locked` is that all the attempts have seen it.
unfoldable pub decide_pll : Mode → Bool → Search → Decision
decide_pll mode locked s =
    if not s.first_unlock_found
    then (let s' = count_lock locked s in
        if mode.relock
        then (if ltb 500 s'.n_bad_locks
            then go_on (record s' { first_unlock_found = true })
            else find_best mode.scan 75 (turn_round 50 s'))
        else go_on s')
    else if locked
    then go_on s
    else finish mode.scan (s.n_shifts_since_lock == 1000)
        (if s.next_lock_found then record s { n_bad_locks = s.n_bad_locks + 1 } else next_lock s)

unfoldable pub decide : Mode → (bc0 pll : Bool) → Search → Decision
decide mode bc0 pll s = if mode.mode_bc0 then decide_bc0 mode bc0 s else decide_pll mode pll s

-- The end of a round of the loop.
unfoldable pub end_shift : Search → Search
end_shift s =
    if s.next_lock_found then record s { n_shifts_since_lock = s.n_shifts_since_lock + 1 } else s
