-- ===== src/Ttc/Shift/Laws.antt =====
-- The counts stay in range, and what the search can end with.
use ctp7_modules.Prelude.{ℕ, ◌≤◌, Bool, true, false, not, ◌≡◌, arith, ◌⊎◌}
use ctp7_modules.Ttc.Shift.{
  Mode, Search, next_gth, count_lock, turn_round, find_best, finish, next_lock, decide_bc0,
  decide_pll, decide, end_shift,
}

-- From a count within the forty steps the next one is within them.
pub next_gth-le : (reversing : Bool) (n : ℕ) → n ≤ 39 → next_gth reversing n ≤ 39
unfolding next_gth
next_gth-le reversing n h = ground arith

-- A step there and a step back.
pub next_gth-back :
    (reversing : Bool) (n : ℕ) → n ≤ 39 → next_gth (not reversing) (next_gth reversing n) ≡ n
unfolding next_gth
next_gth-back true n h = ground arith
next_gth-back false n h = ground arith

-- Nothing has been found, and a search that goes on like this finds nothing.
pub record IsBlind (s : Search) : Type 0 where
  pub no_unlock : s.first_unlock_found ≡ false
  pub no_lock : s.best_lock_found ≡ false

-- Without a relock, by the PLL, or in a scan by BC0.
pub decide-IsBlind :
    (mode : Mode) (bc0 pll : Bool) (s : Search)
    → mode.relock ≡ false
    → (mode.mode_bc0 ≡ false) ⊎ (mode.scan ≡ true)
    → IsBlind s
    → IsBlind (decide mode bc0 pll s).search × ((decide mode bc0 pll s).ended ≡ false)
unfolding decide decide_bc0 decide_pll count_lock find_best turn_round
decide-IsBlind mode bc0 pll s no_relock blind_mode blind = ground arith

-- The search for a phase ends early only with a lock found, and never in a scan.
pub decide-ended :
    (mode : Mode) (bc0 pll : Bool) (s : Search)
    → (decide mode bc0 pll s).ended ≡ true
    → ((decide mode bc0 pll s).search.best_lock_found ≡ true) × (mode.scan ≡ false)
unfolding decide decide_bc0 decide_pll count_lock find_best turn_round finish next_lock
decide-ended mode bc0 pll s ended = ground arith

pub end_shift-IsBlind : (s : Search) → IsBlind s → IsBlind (end_shift s)
unfolding end_shift
end_shift-IsBlind s blind = ground arith
