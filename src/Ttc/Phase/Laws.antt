-- ===== src/Ttc/Phase/Laws.antt =====
-- What a search on the hardware can come to.
use ctp7_modules.Prelude.{
  ℕ, zero, suc, String, List, ◌∷◌, arith, Bool, true, false, if◌then◌else◌, ◌≡◌, ◌≢◌, refl, sym, ap,
  ◌∙◌, ◌⊎◌, ne→==_false,
}
use mathlib.Core.Path.{subst}
use ctp7_modules.Effect.{
  Card, World, Reply, idle, ok, pure, spinning, text, set_string, continue, ◌>>=◌, ◌>>◌,
  continue-eq-ok, ok-injective,
}
use ctp7_modules.Register.{read_reg, write_reg}
use ctp7_modules.Register.File.{RegisterFile}
use ctp7_modules.Ttc.{check_pll_lock_local}
use ctp7_modules.Ttc.Shift.{Mode, Search, Decision, next_gth, next_mmcm, decide, end_shift}
use ctp7_modules.Ttc.Shift.Laws.{IsBlind, decide-IsBlind, end_shift-IsBlind}
use ctp7_modules.Ttc.Phase.{
  ctrl, start, read_attempts, max_shift, repeat_shift, shifts_mmcm, shift_once, look_at_locks,
  take_turns, shift_round, shift_loop, report_lock, search_phase,
}

module _ {S : Type 0} (card : Card S) where
  -- A shift changes the two counts only.
  abbrev SameFlags : Search → Search → Type 0
  SameFlags s s' =
      (s'.first_unlock_found ≡ s.first_unlock_found) × (s'.best_lock_found ≡ s.best_lock_found)

  shift_once-SameFlags :
      (fuel : ℕ) (s s' : Search) (w w' : World S)
      → shift_once card fuel s w ≡ (ok s', w')
      → SameFlags s s'
  unfolding shift_once
  shift_once-SameFlags fuel s s' w w' e =
      let (u1, w1, e1, f1) = continue-eq-ok (write_reg card (ctrl "CNT_RESET") 1 w) _ e in
      let (u2, w2, e2, f2) =
        continue-eq-ok (write_reg card (ctrl "PA_GTH_MANUAL_SHIFT_EN") 1 w1) _ f1 in
      let (t, w3, e3, f3) =
        continue-eq-ok (read_reg card "GEM_AMC.TTC.STATUS.CLK.PA_MANUAL_GTH_SHIFT_CNT" w2) _ f2 in
      let (u4, w4, e4, f4) =
        continue-eq-ok (read_reg card "GEM_AMC.TTC.STATUS.CLK.PA_MANUAL_SHIFT_CNT" w3) _ f3 in
      let (u5, w5, e5, f5) =
        continue-eq-ok (repeat_shift card fuel (next_gth s.reversing_for_lock s.gth_shift_cnt) t w4)
          _ f4 in
      let (both, w6, e6, f6) =
        continue-eq-ok (shifts_mmcm card (next_gth s.reversing_for_lock s.gth_shift_cnt) w5) _ f5 in
      counted both w6 f6
    where
      counted :
          (both : Bool) (w6 : World S)
          → (if both
                then (read_reg card "TTC.STATUS.CLK.PA_MANUAL_SHIFT_CNT"
                    >> pure (record s {
                      gth_shift_cnt = next_gth s.reversing_for_lock s.gth_shift_cnt;
                      mmcm_shift_cnt = next_mmcm s.reversing_for_lock s.mmcm_shift_cnt;
                    }))
                else pure
                    (record s { gth_shift_cnt = next_gth s.reversing_for_lock s.gth_shift_cnt }))
              w6
            ≡ (ok s', w')
          → SameFlags s s'
      counted true w6 f =
          let (u, w7, e7, f7) =
            continue-eq-ok (read_reg card "TTC.STATUS.CLK.PA_MANUAL_SHIFT_CNT" w6) _ f in
          let same = ok-injective (ap (λ x. x.0) f7) in
          (
            ap (λ (x : Search). x.first_unlock_found) (sym same),
            ap (λ (x : Search). x.best_lock_found) (sym same),
          )
      counted false w6 f =
          let same = ok-injective (ap (λ x. x.0) f) in
          (
            ap (λ (x : Search). x.first_unlock_found) (sym same),
            ap (λ (x : Search). x.best_lock_found) (sym same),
          )

  module _ (fuel : ℕ) (mode : Mode) (no_relock : mode.relock ≡ false)
      (blind_mode : (mode.mode_bc0 ≡ false) ⊎ (mode.scan ≡ true)) where
    shift_round-IsBlind :
        (s : Search) (d : Decision) (w w' : World S)
        → IsBlind s
        → shift_round card fuel mode s w ≡ (ok d, w')
        → IsBlind d.search × (d.ended ≡ false)
    unfolding shift_round
    shift_round-IsBlind s d w w' blind e =
        let (s', w1, e1, f1) = continue-eq-ok (shift_once card fuel s w) _ e in
        let (locks, w2, e2, f2) = continue-eq-ok (look_at_locks card mode w1) _ f1 in
        let (u, w3, e3, f3) =
          continue-eq-ok (take_turns card (decide mode locks.0 locks.1 s').turns w2) _ f2 in
        let same = ok-injective (ap (λ x. x.0) f3) in
        let (unlock, best) = shift_once-SameFlags fuel s s' w w1 e1 in
        let blind' : IsBlind s' = record {
          no_unlock = unlock ∙ blind.no_unlock;
          no_lock = best ∙ blind.no_lock;
        } in
        subst (λ (x : Decision). IsBlind x.search × (x.ended ≡ false)) same
          (decide-IsBlind mode locks.0 locks.1 s' no_relock blind_mode blind')

    shift_loop-IsBlind :
        (left : ℕ) (s s' : Search) (w w' : World S)
        → IsBlind s
        → shift_loop card fuel mode left s w ≡ (ok s', w')
        → IsBlind s'
    unfolding shift_loop
    shift_loop-IsBlind zero s s' w w' blind e = subst IsBlind (ok-injective (ap (λ x. x.0) e)) blind
    shift_loop-IsBlind (suc left) s s' w w' blind e =
        let (d, w1, e1, f1) = continue-eq-ok (shift_round card fuel mode s w) _ e in
        let (blind', goes_on) = shift_round-IsBlind s d w w1 blind e1 in
        shift_loop-IsBlind left (end_shift d.search) s' w1 w' (end_shift-IsBlind d.search blind')
          (rw goes_on at f1)

    -- Without relock, and by the PLL or in a scan, a search for a phase that starts with no unlock
    -- and no lock found, and returns, has reported that it is unable to find a lock, whatever the
    -- hardware shows and however many shifts it makes.
    pub report_lock-blind :
        (left : ℕ) (s : Search) (w w' : World S)
        → IsBlind s
        → (shift_loop card fuel mode left s >>= report_lock card) w ≡ (ok tt, w')
        → (w1 : World S) × (w'
            ≡ record w1 { reply = set_string "error" (text "Unable to find lock") ∷ w1.reply })
    unfolding report_lock
    report_lock-blind left s w w' blind e =
        let (s', w1, e1, f1) = continue-eq-ok (shift_loop card fuel mode left s w) _ e in
        let blind' = shift_loop-IsBlind left s s' w w1 blind e1 in
        (w1, sym (ap (λ x. x.1) (rw blind'.no_lock at f1)))

    -- The whole of it, behind the registers' readback.
    pub search_phase-blind :
        (w w' : World S)
        → search_phase card fuel mode w ≡ (ok tt, w')
        → (w1 : World S) × (w'
            ≡ record w1 { reply = set_string "error" (text "Unable to find lock") ∷ w1.reply })
    unfolding search_phase
    search_phase-blind w w' e =
        let (mmcm, w1, e1, f1) =
          continue-eq-ok (read_reg card "GEM_AMC.TTC.STATUS.CLK.PA_MANUAL_SHIFT_CNT" w) _ e in
        let (gth, w2, e2, f2) =
          continue-eq-ok (read_reg card "GEM_AMC.TTC.STATUS.CLK.PA_MANUAL_GTH_SHIFT_CNT" w1) _ f1 in
        let (n, w3, e3, f3) =
          continue-eq-ok (check_pll_lock_local card (read_attempts mode) w2) _ f2 in
        report_lock-blind (max_shift mode) (start mmcm gth) w3 w'
          (record { no_unlock = refl; no_lock = refl }) f3

abbrev pub shift_enable : String
shift_enable = ctrl "PA_GTH_MANUAL_SHIFT_EN"

abbrev pub shift_count : String
shift_count = "GEM_AMC.TTC.STATUS.CLK.PA_MANUAL_GTH_SHIFT_CNT"

module _ {S : Type 0} (card : Card S) (known : String → Bool) (file : RegisterFile card known) where
  open file use {get, put, reads, writes, get-put}

  -- Over registers that keep what is written to them, so that the counter of the shifts does not
  -- move, if another count is expected than the counter shows, the loop that repeats the shift
  -- never ends, whatever the fuel.
  pub repeat_shift-stuck :
      (gthShiftCnt fuel : ℕ) (h : S) (r : List Reply)
      → known shift_enable ≡ true
      → known shift_count ≡ true
      → gthShiftCnt ≢ get h shift_count
      → (repeat_shift card fuel gthShiftCnt (get h shift_count) (idle h r)).0 ≡ spinning
  unfolding repeat_shift
  repeat_shift-stuck gthShiftCnt zero h r has_en has_cnt other = refl
  repeat_shift-stuck gthShiftCnt (suc fuel) h r has_en has_cnt other =
      let h1 = put h shift_enable 1 in
      let same : get h1 shift_count ≡ get h shift_count =
        get-put h shift_enable shift_count 1 has_en has_cnt (omega arith) in
      rw
        (
          ne→==_false _ _ other,
          repeat_shift,
          writes shift_enable 1 h r has_en,
          continue,
          reads shift_count h1 r has_cnt,
        )
        (repeat_shift-stuck gthShiftCnt fuel h1 r has_en has_cnt (rw same other))
