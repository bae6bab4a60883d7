-- ===== src/Examples/Components.antt =====
-- The theorems on the components above the registers, applied.
use ctp7_modules.Prelude.{◌≤◌, [], ◌∷◌, All, ◌≡◌, refl}
use ctp7_modules.Memhub.Lock.{Pc, Moves, System, Step, Reaches, AnyTime, Timely, after_die}
use ctp7_modules.Memhub.Lock.Laws.{
  inside, IsResting, mutual_exclusion, killed_posted, killed_entered,
}

-- Two processes; the first takes the semaphore and is inside.
abbrev two : System
two = record { sem = 1; procs = Pc.outside ∷ Pc.outside ∷ [] }

abbrev first_inside : System
first_inside = record { sem = 0; procs = Pc.inside ∷ Pc.outside ∷ [] }

enters : Reaches Timely two first_inside
enters = Reaches.step (Step.wait Moves.here) (Reaches.step (Step.mark Moves.here) Reaches.stay)

mutual_exclusion_example : inside (Pc.inside ∷ Pc.outside ∷ []) ≤ 1
mutual_exclusion_example = mutual_exclusion {s = two} {t = first_inside} refl refl enters

killed_posted_example :
    (t : System) × Reaches AnyTime
      (record { sem = 1; procs = Pc.outside ∷ Pc.outside ∷ Pc.outside ∷ Pc.dead ∷ [] })
      t
    × (inside t.procs ≡ 2)
killed_posted_example = killed_posted (Pc.dead ∷ [])

killed_entered_example : (after_die Pc.entered 0 ≡ 0) × All IsResting (Pc.dead ∷ Pc.outside ∷ [])
unfolding after_die
killed_entered_example =
    killed_entered {t = record { sem = 0; procs = Pc.dead ∷ Pc.outside ∷ [] }} Moves.here
      (tt, (tt, tt)) Reaches.stay
