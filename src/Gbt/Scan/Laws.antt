-- ===== src/Gbt/Scan/Laws.antt =====
-- The turns of the loop over the phases in `scanGBTPhasesLocal` of src/gbt.cpp.
use ctp7_modules.Prelude.{
  ℕ, zero, suc, ◌+◌, ◌-◌, ◌%◌, ◌^◌, ◌<◌, ◌≤◌, [], ◌∷◌, true, false, leb, ltb, Option, none, some,
  ◌≡◌, ◌≢◌, arith, Bool-cases, if◌then◌else◌, inl, inr,
}
use ctp7_modules.Effect.{Card, World, ok, fault, continue-ne-ok, ◌>>◌}
use ctp7_modules.Effect.Ends.{
  Ends, bind-Ends, if-Ends, bool-Ends, pure-Ends, respond-Ends, stop-Ends, returns-Ends,
}
use ctp7_modules.Register.Ends.{read_reg-Ends, write_reg-Ends}
use ctp7_modules.Constants.{vfats_per_oh, phase_max}
use ctp7_modules.Gbt.Config.Ends.{
  write_gbt_phase_local-Ends, with_oh-Ends, check_phase-Ends, check_phase_high,
}
use ctp7_modules.Gbt.Scan.{
  Counts, or_fault, sleep_for, set_phases, vfat_is_good, check_vfats, check_once, repeat_check,
  scan_loop, reply_counts, finish_scan, scan_gbt_phases_local,
}

ruleset steps =
    (bind-Ends, if-Ends, bool-Ends, pure-Ends, respond-Ends, read_reg-Ends, write_reg-Ends)

-- A bound on the rounds that are left.
rounds : ℕ → ℕ → ℕ → ℕ
rounds top step phase =
    if leb phase top then (if leb step phase_max then 16 - phase else phase + 1) else 0

rounds_fall :
    (top step phase : ℕ)
    → leb phase top ≡ true
    → top ≤ phase_max
    → 0 < step
    → step < 256
    → rounds top step ((phase + step) % 2 ^ 8) < rounds top step phase
unfolding rounds
rounds_fall top step phase more ht pos hs = ground arith

rounds-le : (top step phase : ℕ) → top ≤ phase_max → rounds top step phase ≤ 16
unfolding rounds
rounds-le top step phase ht = ground arith

module _ {S : Type 0} (card : Card S) where
  sleep_for-Ends : (t : ℕ) → Ends (sleep_for card t)
  sleep_for-Ends t = returns-Ends (λ w. tt) _

  or_fault-Ends : (o : Option Counts) → Ends (or_fault card o)
  or_fault-Ends none = stop-Ends fault (record { not_spinning = λ p. cc })
  or_fault-Ends (some c) = pure-Ends c

  set_phases-Ends : (oh phase vfat left : ℕ) → Ends (set_phases card oh phase vfat left)
  unfolding set_phases
  set_phases-Ends oh phase vfat zero = pure-Ends false
  set_phases-Ends oh phase vfat (suc left) =
      let ih = set_phases-Ends oh phase (vfat + 1) left in
      bind-Ends _ _ (write_gbt_phase_local-Ends card oh vfat phase)
        (λ failed. bool-Ends failed _ _ (pure-Ends true) ih)

  vfat_is_good-Ends : (oh vfat : ℕ) → Ends (vfat_is_good card oh vfat)
  unfolding vfat_is_good
  vfat_is_good-Ends oh vfat = search steps depth 8

  check_vfats-Ends :
      (oh phase vfat left : ℕ) (c : Counts) → Ends (check_vfats card oh phase vfat left c)
  unfolding check_vfats
  check_vfats-Ends oh phase vfat zero c = pure-Ends c
  check_vfats-Ends oh phase vfat (suc left) c = bind-Ends _ _ (vfat_is_good-Ends oh vfat) (λ good.
      bind-Ends _ _ (if-Ends good _ _ (or_fault-Ends _) (pure-Ends c))
        (check_vfats-Ends oh phase (vfat + 1) left))

  check_once-Ends : (oh phase : ℕ) (c : Counts) → Ends (check_once card oh phase c)
  unfolding check_once
  check_once-Ends oh phase c =
      bind-Ends _ _ (write_reg-Ends card _ 1)
        (λ u. bind-Ends _ _ (sleep_for-Ends _) (λ v. check_vfats-Ends oh phase 0 vfats_per_oh c))

  repeat_check-Ends : (oh phase n : ℕ) (c : Counts) → Ends (repeat_check card oh phase n c)
  unfolding repeat_check
  repeat_check-Ends oh phase zero c = pure-Ends c
  repeat_check-Ends oh phase (suc n) c =
      bind-Ends _ _ (check_once-Ends oh phase c) (repeat_check-Ends oh phase n)

  scan_loop-Ends :
      (fuel oh n top step phase : ℕ) (c : Counts)
      → top ≤ phase_max
      → 0 < step
      → step < 256
      → rounds top step phase < fuel
      → Ends (scan_loop card fuel oh n top step phase c)
  unfolding scan_loop
  scan_loop-Ends zero oh n top step phase c ht pos hs enough = absurd (omega arith)
  scan_loop-Ends (suc fuel) oh n top step phase c ht pos hs enough =
      elim (Bool-cases (leb phase top)) [
        | inr done ↦ rw (done, scan_loop) (pure-Ends (some c))
        | inl more ↦
            let fewer : rounds top step ((phase + step) % 2 ^ 8) < fuel =
              omega (arith, rounds_fall top step phase more ht pos hs) in
            let ih = λ (c' : Counts).
              scan_loop-Ends fuel oh n top step ((phase + step) % 2 ^ 8) c' ht pos hs fewer in
            rw (more, scan_loop)
              (bind-Ends _ _ (set_phases-Ends oh phase 0 vfats_per_oh) (λ failed.
                bool-Ends failed _ _ (pure-Ends none) (
                  bind-Ends _ _
                    (bind-Ends _ _ (sleep_for-Ends _) (λ u. repeat_check-Ends oh phase n c)) ih)))
      ]

  reply_counts-Ends : (oh vfat : ℕ) (c : Counts) → Ends (reply_counts card oh vfat c)
  unfolding reply_counts
  reply_counts-Ends oh vfat [] = pure-Ends tt
  reply_counts-Ends oh vfat (row ∷ c) =
      bind-Ends _ _ (respond-Ends _) (λ u. reply_counts-Ends oh (vfat + 1) c)

  finish_scan-Ends : (oh : ℕ) (o : Option Counts) → Ends (finish_scan card oh o)
  finish_scan-Ends oh none = pure-Ends true
  finish_scan-Ends oh (some c) = bind-Ends _ _ (reply_counts-Ends oh 0 c) (λ u. pure-Ends false)

  -- With a phase step from 1 to 255, seventeen turns of the phase loop are enough for
  -- scanGBTPhasesLocal to end.
  pub scan_gbt_phases_local-Ends :
      (fuel oh n low top step : ℕ)
      → 17 ≤ fuel
      → 0 < step
      → step < 256
      → Ends (scan_gbt_phases_local card fuel oh n low top step)
  unfolding scan_gbt_phases_local
  scan_gbt_phases_local-Ends fuel oh n low top step enough pos hs = with_oh-Ends card oh _ (
      bind-Ends _ _ (check_phase-Ends low) (λ bad_min.
        if-Ends bad_min _ _ (pure-Ends true) (elim (Bool-cases (ltb phase_max top)) [
          | inl high ↦ rw (check_phase_high top high) (returns-Ends (λ w. true) _)
          | inr fits ↦ bind-Ends _ _ (check_phase-Ends top) (λ bad_max.
              if-Ends bad_max _ _ (pure-Ends true) (
                bind-Ends _ _
                  (scan_loop-Ends fuel oh n top step low _ (ground arith) pos hs
                    (omega (arith, rounds-le top step low (ground arith))))
                  (finish_scan-Ends oh)))
        ])))

  -- With a phase step of 0, and a phase within the range, the phase loop never returns results,
  -- however many turns it is given.
  pub scan_loop_zero_step :
      (fuel oh n top phase : ℕ) (c c' : Counts) (w : World S)
      → phase ≤ top
      → top < 256
      → (scan_loop card fuel oh n top 0 phase c w).0 ≢ ok (some c')
  unfolding scan_loop
  scan_loop_zero_step zero oh n top phase c c' w le fits = λ p. cc
  scan_loop_zero_step (suc fuel) oh n top phase c c' w le fits =
      let more : leb phase top ≡ true = ground arith in
      let again : (d : Counts) (v : World S)
          → (scan_loop card fuel oh n top 0 ((phase + 0) % 2 ^ 8) d v).0 ≢ ok (some c') =
        λ d v. scan_loop_zero_step fuel oh n top ((phase + 0) % 2 ^ 8) d c' v (omega arith) fits in
      rw (more, scan_loop)
        (continue-ne-ok (set_phases card oh phase 0 vfats_per_oh w) _ (some c') (elim [
          | true ↦ λ v p. cc
          | false ↦ λ v.
              continue-ne-ok ((sleep_for card 10_000_000 >> repeat_check card oh phase n c) v) _
                (some c') again
        ]))
