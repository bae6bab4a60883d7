-- ===== src/Loops.antt =====
-- The loops that several modules of src/ share: over the 24 VFATs of an OptoHybrid with a mask, over
-- the registers of a status report, and over a range of `uint32_t` values.
pub mod Laws
use ctp7_modules.Prelude.{
  ℕ, zero, suc, ◌+◌, ◌%◌, ◌^◌, List, [], ◌∷◌, Bool, true, false, ◌==◌, leb, ltb, if◌then◌else◌,
}
use ctp7_modules.Prelude.Bits.{bit}
use ctp7_modules.Effect.{M, fault, spinning, pure, stop, ◌>>=◌, ◌>>◌}

module _ {S : Type 0} where
  -- `for (auto & x : xs) body(x);`
  unfoldable pub for_each : {A : Type 0} → (A → M S (Unit {0})) → List A → M S (Unit {0})
  for_each body [] = pure tt
  for_each body (x ∷ xs) = body x >> for_each body xs

  -- `for (vfatN …) { if ((mask >> vfatN) & 0x1) continue; body }`, from `vfatN` on, `left` rounds.
  unfoldable pub for_unmasked : (ℕ → M S (Unit {0})) → ℕ → ℕ → ℕ → M S (Unit {0})
  for_unmasked body mask vfatN zero = pure tt
  for_unmasked body mask vfatN (suc left) =
      (if bit vfatN mask == 1 then pure tt else body vfatN)
      >> for_unmasked body mask (vfatN + 1) left

  -- What follows a part that may have ended the function.
  abbrev pub unless_ended : Bool → M S Bool → M S Bool
  unless_ended true rest = pure true
  unless_ended false rest = rest

  -- `for (vfatN …) { if (!((notmask >> vfatN) & 0x1)) continue; body }`.
  unfoldable pub for_selected : (ℕ → M S (Unit {0})) → ℕ → ℕ → ℕ → M S (Unit {0})
  for_selected body notmask vfatN zero = pure tt
  for_selected body notmask vfatN (suc left) =
      (if bit vfatN notmask == 1 then body vfatN else pure tt)
      >> for_selected body notmask (vfatN + 1) left

  -- The same with a body that may end the whole function: it returns `true` then.
  unfoldable pub until_selected : (ℕ → M S Bool) → ℕ → ℕ → ℕ → M S Bool
  until_selected body notmask vfatN zero = pure false
  until_selected body notmask vfatN (suc left) =
      (if bit vfatN notmask == 1 then body vfatN else pure false)
      >>= (λ ended. unless_ended ended (until_selected body notmask (vfatN + 1) left))

  -- `for (unsigned int ohN …; ohN < NOH; …) { if (!((ohMask >> ohN) & 0x1)) continue; body }`; a
  -- shift by 32 bits or more is undefined.
  unfoldable pub for_links : (ℕ → M S (Unit {0})) → ℕ → ℕ → ℕ → M S (Unit {0})
  for_links body ohMask ohN zero = pure tt
  for_links body ohMask ohN (suc left) =
      (if ltb ohN 32 then (if bit ohN ohMask == 1 then body ohN else pure tt) else stop fault)
      >> for_links body ohMask (ohN + 1) left

  -- A counted loop whose body may end the whole function.
  unfoldable pub until_done : (ℕ → M S Bool) → ℕ → ℕ → M S Bool
  until_done body i zero = pure false
  until_done body i (suc left) =
      body i >>= (λ ended. unless_ended ended (until_done body (i + 1) left))

  -- `for (uint32_t v = …; v <= last; v += step) body(v);`, with fuel for the rounds.
  unfoldable pub for_range : ℕ → ℕ → ℕ → (ℕ → M S (Unit {0})) → ℕ → M S (Unit {0})
  for_range zero step last body v = stop spinning
  for_range (suc fuel) step last body v = elim (leb v last) [
    | true ↦ body v >> for_range fuel step last body ((v + step) % 2 ^ 32)
    | false ↦ pure tt
  ]

-- `v, v + step, …`, `n` of them.
unfoldable pub progression : ℕ → ℕ → ℕ → List ℕ
progression step v zero = []
progression step v (suc n) = v ∷ progression step (v + step) n
