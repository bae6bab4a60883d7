-- ===== src/Gbt/Scan.antt =====
-- `scanGBTPhasesLocal`: for each phase, set it on every VFAT of the OptoHybrid, reset the links `N`
-- times, and count how often each VFAT came up without errors.
pub mod Laws
use ctp7_modules.Prelude.{
  ℕ, zero, suc, ◌+◌, ◌%◌, ◌^◌, String, List, [], ◌∷◌, Bool, true, false, not, ◌&&◌, leb, ◌==◌, ltb,
  if◌then◌else◌, get_or, set, replicate, Option, some, none, get_elem?,
}
use ctp7_modules.Effect.{
  Card, M, Request, get_word, Message, fmt, ok, fault, spinning, pure, stop, ◌>>=◌, ◌>>◌, respond,
  set_word_array,
}
use ctp7_modules.Names.{decimal, short_decimal, ◌◇◌}
use ctp7_modules.Register.{read_reg, write_reg, dead}
use ctp7_modules.Constants.{vfats_per_oh}
use ctp7_modules.Gbt.Config.{check_phase, write_gbt_phase_local, with_oh}

abbrev pub Counts : Type 0
Counts = List (List ℕ)

-- `results[vfatN][phase]++`: undefined past either end.
unfoldable pub count_good : Counts → ℕ → ℕ → Option Counts
count_good results vfat phase = elim (get_elem? results vfat) [
  | none ↦ none
  | some row ↦ elim (get_elem? row phase) [
    | none ↦ none
    | some c ↦ some (set results vfat (set row phase ((c + 1) % 2 ^ 32)))
  ]
]

module _ {S : Type 0} (card : Card S) where
  abbrev pub sleep_for : ℕ → M S (Unit {0})
  sleep_for t w = (ok tt, record w { hw = card.sleep t w.hw })

  abbrev pub or_fault : Option Counts → M S Counts
  or_fault none = stop fault
  or_fault (some c) = pure c

  -- Set `phase` on the VFATs from `vfat` on, `left` of them.
  unfoldable pub set_phases : ℕ → ℕ → ℕ → ℕ → M S Bool
  set_phases ohN phase vfat zero = pure false
  set_phases ohN phase vfat (suc left) = write_gbt_phase_local card ohN vfat phase >>= (λ failed.
      elim failed [ true ↦ pure true | false ↦ set_phases ohN phase (vfat + 1) left ])

  unfoldable pub vfat_is_good : ℕ → ℕ → M S Bool
  vfat_is_good ohN vfat = do
    let link = "GEM_AMC.OH_LINKS.OH" ◇ short_decimal ohN ◇ ".VFAT" ◇ short_decimal vfat
    good ← read_reg card (link ◇ ".LINK_GOOD")
    errs ← read_reg card (link ◇ ".SYNC_ERR_CNT")
    run ←
        read_reg card
          ("GEM_AMC.OH.OH" ◇ short_decimal ohN ◇ ".GEB.VFAT" ◇ short_decimal vfat ◇ ".CFG_RUN")
    pure (good == 1 && (errs == 0 && not (run == dead)))

  -- Check the VFATs from `vfat` on, `left` of them.
  unfoldable pub check_vfats : ℕ → ℕ → ℕ → ℕ → Counts → M S Counts
  check_vfats ohN phase vfat zero results = pure results
  check_vfats ohN phase vfat (suc left) results = vfat_is_good ohN vfat >>= (λ good.
      (if good then or_fault (count_good results vfat phase) else pure results)
      >>= check_vfats ohN phase (vfat + 1) left)

  -- One repetition: reset the links, wait, look at every VFAT.
  unfoldable pub check_once : ℕ → ℕ → Counts → M S Counts
  check_once ohN phase results = do
    write_reg card "GEM_AMC.GEM_SYSTEM.CTRL.LINK_RESET" 1
    sleep_for 10_000_000
    check_vfats ohN phase 0 vfats_per_oh results

  unfoldable pub repeat_check : ℕ → ℕ → ℕ → Counts → M S Counts
  repeat_check ohN phase zero results = pure results
  repeat_check ohN phase (suc n) results = check_once ohN phase results >>= repeat_check ohN phase n

  -- The loop over the phases. `phase += phaseStep` is in `uint8_t`. An early `return true` gives
  -- `none`.
  unfoldable pub scan_loop : ℕ → ℕ → ℕ → ℕ → ℕ → ℕ → Counts → M S (Option Counts)
  scan_loop zero ohN n phase_max step phase results = stop spinning
  scan_loop (suc fuel) ohN n phase_max step phase results = elim (leb phase phase_max) [
    | false ↦ pure (some results)
    | true ↦ set_phases ohN phase 0 vfats_per_oh >>= (λ failed. elim failed [
      | true ↦ pure none
      | false ↦
          sleep_for 10_000_000
          >> repeat_check ohN phase n results
          >>= scan_loop fuel ohN n phase_max step ((phase + step) % 2 ^ 8)
    ])
  ]

  -- The results of the VFATs from `vfat` on, into the reply.
  unfoldable pub reply_counts : ℕ → ℕ → Counts → M S (Unit {0})
  reply_counts ohN vfat [] = pure tt
  reply_counts ohN vfat (row ∷ rest) =
      respond (set_word_array ("OH" ◇ decimal ohN ◇ ".VFAT" ◇ decimal vfat) row)
      >> reply_counts ohN (vfat + 1) rest

  abbrev pub finish_scan : ℕ → Option Counts → M S Bool
  finish_scan ohN none = pure true
  finish_scan ohN (some results) = do reply_counts ohN 0 results; pure false

  unfoldable pub scan_gbt_phases_local : ℕ → ℕ → ℕ → ℕ → ℕ → ℕ → M S Bool
  scan_gbt_phases_local fuel ohN n phase_min phase_max step = with_oh card ohN (do
    bad_min ← check_phase phase_min
    if bad_min then pure true else (do
      bad_max ← check_phase phase_max
      if bad_max then pure true else (do
        let empty = replicate vfats_per_oh (replicate 16 0)
        finish_scan ohN (← scan_loop fuel ohN n phase_max step phase_min empty))))

  -- The handler `scanGBTPhases`; the phases and the step are cut to `uint8_t`.
  unfoldable pub scan_gbt_phases : ℕ → Request → M S (Unit {0})
  scan_gbt_phases fuel request = do
    scan_gbt_phases_local fuel (get_word request "ohN") (get_word request "nScans")
        (get_word request "phaseMin" % 2 ^ 8) (get_word request "phaseMax" % 2 ^ 8)
        (get_word request "phaseStep" % 2 ^ 8)
    pure tt
