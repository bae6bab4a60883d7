-- ===== src/Examples/Buses.antt =====
-- The theorem on the optical receivers, applied.
use ctp7_modules.Prelude.{
  ℕ, suc, ◌+◌, ◌<◌, List, [], ◌∷◌, Bool, true, false, ◌==◌, if◌then◌else◌, Option, none, some, ◌≡◌,
  refl, arith,
}
use ctp7_modules.Effect.{World, idle, ok}
use ctp7_modules.Optical.{Bus, measure_input_power}
use ctp7_modules.Optical.Laws.{Descriptors, measure_input_power-closes}

-- The hardware is the list of the open descriptors; every read gives 1000, big end first.
is_in : List ℕ → ℕ → Bool
is_in [] fd = false
is_in (x ∷ xs) fd = if x == fd then true else is_in xs fd

without : ℕ → List ℕ → List ℕ
without d [] = []
without d (x ∷ xs) = if x == d then without d xs else x ∷ without d xs

-- A number above all of the list.
fresh : List ℕ → ℕ
fresh [] = 3
fresh (x ∷ xs) = suc (x + fresh xs)

close_of : List ℕ → Option ℕ → List ℕ
close_of h none = h
close_of h (some d) = without d h

above-fresh : (l : List ℕ) (fd : ℕ) → is_in l fd ≡ true → fd < fresh l
unfolding is_in fresh
above-fresh [] fd h = cc
above-fresh (x ∷ xs) fd h = ground (arith, above-fresh xs fd)

is_in-fresh : (l : List ℕ) → is_in l (fresh l) ≡ false
is_in-fresh l = ground (arith, above-fresh l (fresh l))

is_in-without :
    (l : List ℕ) (d fd : ℕ) → is_in (without d l) fd ≡ (if d == fd then false else is_in l fd)
unfolding is_in without
is_in-without [] d fd = ground arith
is_in-without (x ∷ xs) d fd = ground (arith, is_in-without xs d fd)

abbrev bus : Bus (List ℕ)
bus = record {
  open_device = λ h n. (some (fresh h), fresh h ∷ h);
  close = close_of;
  i2c_write = λ h d a r v. (true, h);
  i2c_read = λ h d a r. (some (3, 232), h);
}

bus-Descriptors : Descriptors bus
unfolding is_in close_of
bus-Descriptors = record {
  is_open = is_in;
  open_some = λ h n d fd e. ground (arith, is_in-fresh h);
  open_none = λ h n fd e. cc;
  close_some = λ h d fd. is_in-without h d fd;
  close_none = λ h fd. refl;
  write_keeps = λ h d a r v fd. refl;
  read_keeps = λ h d a r fd. refl;
}

measure_input_power-closes_example :
    (w1 : World (List ℕ)) × (measure_input_power bus (idle (0 ∷ 7 ∷ []) []) ≡ (ok tt, w1))
    × ((fd : ℕ) → bus-Descriptors.is_open w1.hw fd ≡ bus-Descriptors.is_open (0 ∷ 7 ∷ []) fd)
measure_input_power-closes_example =
    measure_input_power-closes bus bus-Descriptors (idle (0 ∷ 7 ∷ []) [])
