-- ===== src/Ttc/Laws.antt =====
-- The attempts at a lock of the PLL in src/amc/ttc.cpp.
use ctp7_modules.Prelude.{
  ℕ, zero, suc, ◌+◌, ◌^◌, ◌<◌, ◌≤◌, Bool, true, false, if◌then◌else◌, ◌≡◌, arith, ap,
}
use ctp7_modules.Effect.{Card, World, ok, continue-eq-ok, ok-injective}
use ctp7_modules.Ttc.{rounds, try_lock, count_locks, check_pll_lock_local}

step-le : (b : Bool) (n : ℕ) → (if b then n + 1 else n) ≤ n + 1
step-le false n = omega arith
step-le true n = omega arith

module _ {S : Type 0} (card : Card S) where
  count_locks-le :
      (left n : ℕ) (w w' : World S) (r : ℕ) → count_locks card left n w ≡ (ok r, w') → r ≤ n + left
  unfolding count_locks
  count_locks-le zero n w w' r e = omega (arith, ok-injective (ap (λ x. x.0) e))
  count_locks-le (suc left) n w w' r e =
      let (b, w1, e1, e2) = continue-eq-ok (try_lock card w) _ e in
      omega (arith, step-le b n, count_locks-le left (if b then n + 1 else n) w1 w' r e2)

  -- A checkPLLLockLocal that returns has counted at most as many locks as attempts were asked for,
  -- and a number that an int holds.
  pub check_pll_lock_local-le :
      (readAttempts : ℕ) (w w' : World S) (r : ℕ)
      → check_pll_lock_local card readAttempts w ≡ (ok r, w')
      → (r ≤ readAttempts) × (r < 2 ^ 31)
  unfolding check_pll_lock_local rounds
  check_pll_lock_local-le readAttempts w w' r e =
      let le = count_locks-le (rounds readAttempts) 0 w w' r e in ground arith
