-- ===== src/Loops/Laws.antt =====
-- A loop over a range compared with the list of its values, and a loop that may end the function
-- split in two.
use ctp7_modules.Prelude.{
  ℕ, zero, suc, ◌+◌, ◌*◌, ◌%◌, ◌^◌, ◌<◌, ◌≤◌, Bool, true, false, leb, ◌≡◌, refl, sym, ap, arith,
  ◌∙◌,
}
use ctp7_modules.Effect.{M, World, continue, continue_assoc, ◌>>=◌}
use ctp7_modules.Loops.{for_each, for_range, until_done, unless_ended, progression}

module _ {S : Type 0} where
  -- With a step that is not zero, bounds that leave room for the last step, and enough fuel, the
  -- loop over a range runs its body at the values of the range, in their order.
  pub for_range-eq-for_each :
      (n fuel step last v : ℕ) (body : ℕ → M S (Unit {0})) (w : World S)
      → 0 < step
      → last + step < 2 ^ 32
      → n < fuel
      → v + n * step ≤ last + step
      → last < v + n * step
      → for_range fuel step last body v w ≡ for_each body (progression step v n) w
  unfolding for_range for_each progression
  for_range-eq-for_each n zero step last v body w pos room enough low high = absurd (omega arith)
  for_range-eq-for_each zero (suc fuel) step last v body w pos room enough low high =
      let over : leb v last ≡ false = ground arith in rw (over, for_range)
  for_range-eq-for_each (suc n) (suc fuel) step last v body w pos room enough low high =
      let within : leb v last ≡ true = ground arith in
      let next : (v + step) % 2 ^ 32 ≡ v + step = ground arith in
      rw (within, for_range, next)
        (λ i. continue (body v w) (λ _ u.
          for_range-eq-for_each n fuel step last (v + step) body u pos room (omega arith)
            (grind arith) (grind arith) i))

  rounds_behind :
      (a b c : M S Bool)
      → ((u : World S) → a u ≡ (b >>= (λ later. unless_ended later c)) u)
      → (ended : Bool) (u : World S)
      → unless_ended ended a u ≡ (unless_ended ended b >>= (λ later. unless_ended later c)) u
  rounds_behind a b c rest true u = refl
  rounds_behind a b c rest false u = rest u

  -- The first rounds of a loop that may end early, and the others, from round `k` on, behind them.
  pub until_done-split :
      (body : ℕ → M S Bool) (n m i k : ℕ)
      → i + n ≡ k
      → (w : World S)
      → until_done body i (n + m) w
        ≡ (until_done body i n >>= (λ ended. unless_ended ended (until_done body k m))) w
  unfolding until_done
  until_done-split body zero m i k at w =
      let here : i ≡ k = omega arith in
      let count : 0 + m ≡ m = omega arith in
      ap (λ (l : ℕ). until_done body i l w) count ∙ ap (λ (j : ℕ). until_done body j m w) here
  until_done-split body (suc n) m i k at w =
      let count : suc n + m ≡ suc (n + m) = omega arith in
      let behind =
        rounds_behind (until_done body (i + 1) (n + m)) (until_done body (i + 1) n)
          (until_done body k m) (until_done-split body n m (i + 1) k (omega arith)) in
      ap (λ (l : ℕ). until_done body i l w) count
      ∙ (λ j. continue (body i w) (λ ended u. behind ended u j))
      ∙ sym (continue_assoc (body i w) _ _)
