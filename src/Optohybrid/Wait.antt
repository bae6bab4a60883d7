-- ===== src/Optohybrid/Wait.antt =====
-- The wait for the broadcast module of firmware 1, on a module that finishes.
use ctp7_modules.Prelude.{
  ℕ, zero, suc, ◌-◌, ◌<◌, String, List, false, ◌≡◌, ◌≢◌, refl, arith, Bool-cases, inl, inr,
}
use ctp7_modules.Effect.{Card, Reply, idle, ok, continue}
use ctp7_modules.Register.{read_raw_reg}
use ctp7_modules.Optohybrid.Broadcast.{stands_still, wait_idle}

-- A module that counts down: `busy` tells how many more milliseconds the register reads the value
-- `word`, and after that it reads 0. This is what the wait relies on.
pub record Finishes {S : Type 0} (card : Card S) (running : String) : Type 0 where
  pub busy : S → ℕ
  pub word : S → ℕ
  pub reads :
      (h : S) (r : List Reply) → read_raw_reg card running (idle h r) ≡ (ok (word h), idle h r)
  pub done : (h : S) → busy h ≡ 0 → word h ≡ 0
  pub counts : (h : S) → busy (card.sleep 1_000_000 h) ≡ busy h - 1

stands_still-zero : (v : ℕ) → stands_still v ≡ false → v ≢ 0
unfolding stands_still
stands_still-zero v h = ground arith

module _ {S : Type 0} (card : Card S) where
  -- If the broadcast module of firmware 1 stops within some milliseconds, with more fuel than that
  -- the wait of broadcastWriteLocal returns.
  pub wait_idle-returns :
      (running : String) (f : Finishes card running) (fuel : ℕ) (h : S) (r : List Reply)
      → f.busy h < fuel
      → (h' : S) × (wait_idle card fuel running (idle h r) ≡ (ok tt, idle h' r))
  unfolding wait_idle
  wait_idle-returns running f zero h r lt = absurd (omega arith)
  wait_idle-returns running f (suc fuel) h r lt = elim (Bool-cases (stands_still (f.word h))) [
    | inl idle_now ↦ (h, rw (f.reads h r, continue, idle_now) refl)
    | inr working ↦
        let still : f.busy h ≢ 0 = λ e. stands_still-zero (f.word h) working (f.done h e) in
        let (h', e) =
          wait_idle-returns running f fuel (card.sleep 1_000_000 h) r (omega (arith, f.counts h)) in
        (h', rw (f.reads h r, continue, working) e)
  ]
