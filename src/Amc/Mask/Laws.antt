-- ===== src/Amc/Mask/Laws.antt =====
-- The bits of the masks.
use native.Mathlib.Nat.{mod-eq_of_lt, pow-suc, pow-le-pow_right}
use ctp7_modules.Prelude.{
  ℕ, zero, suc, ◌+◌, ◌%◌, ◌^◌, ◌<◌, ◌≤◌, Bool, true, false, ltb, if◌then◌else◌, List, set,
  get_elem?, length, ◌≡◌, ◌≢◌, refl, arith, ◌∙◌, some, length-set, inl, inr, ◌⊎◌, le→ltb_false,
  lt→ltb, get_elem?-set, get_elem?-set_other, lt_or_le,
}
use mathlib.Core.Path.{subst}
use ctp7_modules.Prelude.Bits.{bit, bit_high, bit_add_at, bit_add_below}
use ctp7_modules.Effect.{Card, World, ok, continue-ne-ok, continue-ne-ok_first}
use ctp7_modules.Register.{read_reg}
use ctp7_modules.Amc.Mask.{
  sync_err_cnt, mask_vfats, get_oh_vfat_mask_local, mask_of_link, mask_links, store_mask,
}

-- What one VFAT adds to a mask of the VFATs in front of it.
abbrev with_vfat : (v m : ℕ) (b : Bool) → ℕ
with_vfat v m b = if b then (m + 2 ^ v) % 2 ^ 32 else m

with_vfat-eq :
    (v m : ℕ) (b : Bool) → v < 24 → m < 2 ^ v → with_vfat v m b ≡ (if b then m + 2 ^ v else m)
with_vfat-eq v m false small below = refl
with_vfat-eq v m true small below =
    mod-eq_of_lt
      (omega (arith, pow-le-pow_right {n = 2} (omega arith) {i = v} {j = 23} (omega arith)))

with_vfat-lt : (v m : ℕ) (b : Bool) → v < 24 → m < 2 ^ v → with_vfat v m b < 2 ^ (v + 1)
with_vfat-lt v m b small below = rw (with_vfat-eq v m b small below) (ground (arith, pow-suc 2 v))

bit-with_vfat :
    (v m : ℕ) (b : Bool) → v < 24 → m < 2 ^ v → bit v (with_vfat v m b) ≡ (if b then 1 else 0)
bit-with_vfat v m false small below = bit_high v v m below (omega arith)
bit-with_vfat v m true small below = rw (with_vfat-eq v m true small below) (bit_add_at v m below)

bit-with_vfat-below :
    (v m i : ℕ) (b : Bool) → v < 24 → m < 2 ^ v → i < v → bit i (with_vfat v m b) ≡ bit i m
bit-with_vfat-below v m i false small below lt = refl
bit-with_vfat-below v m i true small below lt =
    rw (with_vfat-eq v m true small below) (bit_add_below i v m lt)

module _ {S : Type 0} (card : Card S) (ohN : ℕ) (errs : ℕ → ℕ) (w : World S)
    (counts : (v : ℕ) → v < 24 → read_reg card (sync_err_cnt ohN v) w ≡ (ok (errs v), w)) where
  -- A mask of the VFATs below `v`.
  abbrev IsMask : ℕ → ℕ → Type 0
  IsMask v m = (m < 2 ^ v) × ((i : ℕ) → i < v → bit i m ≡ (if ltb 0 (errs i) then 1 else 0))

  IsMask-step : (v m : ℕ) → v < 24 → IsMask v m → IsMask (v + 1) (with_vfat v m (ltb 0 (errs v)))
  IsMask-step v m small (below, bits) = (with_vfat-lt v m _ small below, at)
    where
      at :
          (i : ℕ)
          → i < v + 1
          → bit i (with_vfat v m (ltb 0 (errs v))) ≡ (if ltb 0 (errs i) then 1 else 0)
      at i lt = elim (lt_or_le i v) [
        | inl less ↦ bit-with_vfat-below v m i _ small below less ∙ bits i less
        | inr le ↦ let same : i ≡ v = omega arith in rw same (bit-with_vfat v m _ small below)
      ]

  mask_vfats_lem :
      (left v m : ℕ)
      → v + left ≡ 24
      → IsMask v m
      → (m' : ℕ) × (mask_vfats card ohN v left m w ≡ (ok m', w)) × IsMask 24 m'
  unfolding mask_vfats
  mask_vfats_lem zero v m e inv =
      (m, refl, subst (λ k. IsMask k m) {x = v} {y = 24} (omega arith) inv)
  mask_vfats_lem (suc left) v m e inv =
      rw (counts v (omega arith))
        (mask_vfats_lem left (v + 1) _ (omega arith) (IsMask-step v m (omega arith) inv))

  -- If the error counters of the VFATs read the numbers errs and the reads change nothing,
  -- getOHVFATMaskLocal gives a mask below 2 ^ 24 in which bit i is set exactly if the counter of
  -- VFAT i is not 0.
  pub get_oh_vfat_mask_local_lem :
      (mask : ℕ) × (get_oh_vfat_mask_local card ohN w ≡ (ok mask, w))
      × ((mask < 2 ^ 24) × ((i : ℕ) → i < 24 → bit i mask ≡ (if ltb 0 (errs i) then 1 else 0)))
  unfolding get_oh_vfat_mask_local
  get_oh_vfat_mask_local_lem =
      mask_vfats_lem 24 0 0 refl (omega arith, λ i lt. absurd (omega arith))

-- More than twelve OptoHybrids do not fit the array: the loop never returns.
module _ {S : Type 0} (card : Card S) where
  store_mask-ne-ok :
      (array : List ℕ) (ohN v : ℕ) (w : World S) (b : List ℕ)
      → 12 ≤ ohN
      → (store_mask card array ohN v w).0 ≢ ok b
  unfolding store_mask
  store_mask-ne-ok array ohN v w b le = rw (le→ltb_false ohN 12 le) λ p. cc

  -- The loop of getOHVFATMaskMultiLink never returns if it goes beyond the twelfth OptoHybrid, the
  -- end of the array.
  pub mask_links-overflow :
      (ohMask ohN left : ℕ) (array : List ℕ) (w : World S) (b : List ℕ)
      → 12 < ohN + left
      → 0 < left
      → (mask_links card ohMask ohN left array w).0 ≢ ok b
  unfolding mask_links
  mask_links-overflow ohMask ohN zero array w b more pos = absurd (omega arith)
  mask_links-overflow ohMask ohN (suc left) array w b more pos =
      continue-ne-ok (mask_of_link card ohMask ohN w) _ b λ v w1. elim (lt_or_le ohN 12) [
        | inl lt ↦ continue-ne-ok (store_mask card array ohN v w1) _ b λ array' w2.
            mask_links-overflow ohMask (ohN + 1) left array' w2 b (omega arith) (omega arith)
        | inr le ↦
            continue-ne-ok_first (store_mask card array ohN v w1) _ b
              λ a. store_mask-ne-ok array ohN v w1 a le
      ]

-- Links whose masks read `masks`.
module _ {S : Type 0} (card : Card S) (ohMask : ℕ) (masks : ℕ → ℕ) (w : World S)
    (reads : (i : ℕ) → i < 12 → mask_of_link card ohMask i w ≡ (ok (masks i), w)) where
  store_mask-eq :
      (array : List ℕ) (i v : ℕ) → i < 12 → store_mask card array i v w ≡ (ok (set array i v), w)
  unfolding store_mask
  store_mask-eq array i v lt = rw (lt→ltb i 12 lt)

  -- For OptoHybrids within the twelve, the loop of getOHVFATMaskMultiLink stores the mask of each
  -- at its place and leaves the other words of the array as they were.
  pub mask_links_lem :
      (left ohN : ℕ) (array : List ℕ)
      → ohN + left ≤ 12
      → length array ≡ 12
      → (array' : List ℕ) × (mask_links card ohMask ohN left array w ≡ (ok array', w))
        × ((i : ℕ) → ohN ≤ i → i < ohN + left → get_elem? array' i ≡ some (masks i))
        × ((i : ℕ) → (i < ohN) ⊎ (ohN + left ≤ i) → get_elem? array' i ≡ get_elem? array i)
  unfolding mask_links
  mask_links_lem zero ohN array le n =
      (array, refl, λ i le' lt. absurd (omega arith), λ i out. refl)
  mask_links_lem (suc left) ohN array le n =
      let (array', runs, inside, outside) =
        mask_links_lem left (ohN + 1) (set array ohN (masks ohN)) (omega arith)
          (length-set array ohN (masks ohN) ∙ n) in
      (
        array',
        rw (reads ohN (omega arith), store_mask-eq array ohN (masks ohN) (omega arith)) runs,
        λ i lo hi. elim (lt_or_le ohN i) [
          | inl lt ↦ inside i (omega arith) (omega arith)
          | inr le' ↦
              let same : i ≡ ohN = omega arith in
              rw same (
                outside ohN (inl (omega arith)) ∙ get_elem?-set array ohN (masks ohN) (omega arith))
        ],
        λ i out. elim out [
          | inl lt ↦
              outside i (inl (omega arith))
              ∙ get_elem?-set_other array ohN i (masks ohN) (omega arith)
          | inr le' ↦
              outside i (inr (omega arith))
              ∙ get_elem?-set_other array ohN i (masks ohN) (omega arith)
        ],
      )
