-- ===== src/Vfat3/Sync/Laws.antt =====
-- The bits of the synchronised VFATs, and how they go with the mask that amc.cpp makes.
use native.Mathlib.Nat.{pow-suc, one-le-pow}
use mathlib.Core.Path.{subst}
use ctp7_modules.Prelude.{
  ℕ, zero, suc, ◌+◌, ◌^◌, ◌<◌, Bool, true, false, not, ◌&&◌, ◌==◌, if◌then◌else◌, bit_or, ◌≡◌, refl,
  arith, ◌∙◌, inl, inr, lt_or_le,
}
use ctp7_modules.Prelude.Bits.{
  bit, bit-zero, bit-le-one, bit_high, bit_add_at, bit_add_below, bit-bit_or, bit_or-le-add,
}
use ctp7_modules.Effect.{Card, World, ok}
use ctp7_modules.Amc.Mask.{sync_err_cnt}
use ctp7_modules.Register.{read_reg}
use ctp7_modules.Vfat3.Sync.{link_good, is_synced, sync_from, vfat_sync_check_local}

-- One bit more.
abbrev mark : (v m : ℕ) (b : Bool) → ℕ
mark v m b = bit_or m (if b then 2 ^ v else 0)

power_bits : (v : ℕ) → (bit v (2 ^ v) ≡ 1) × ((i : ℕ) → i < v → bit i (2 ^ v) ≡ 0)
power_bits v =
    let zero_front : 0 + 2 ^ v ≡ 2 ^ v = omega arith in
    (
      rw zero_front at (bit_add_at v 0 (one-le-pow v 2 (omega arith))),
      λ i lt. rw zero_front at (bit_add_below i v 0 lt ∙ bit-zero i),
    )

mark-lt : (v m : ℕ) (b : Bool) → m < 2 ^ v → mark v m b < 2 ^ (v + 1)
mark-lt v m false below = ground (arith, pow-suc 2 v, bit_or-le-add m 0)
mark-lt v m true below = ground (arith, pow-suc 2 v, bit_or-le-add m (2 ^ v))

bit-mark_below : (v m i : ℕ) (b : Bool) → i < v → bit i (mark v m b) ≡ bit i m
bit-mark_below v m i false lt = bit-bit_or i m 0 ∙ omega (arith, bit-zero i)
bit-mark_below v m i true lt = bit-bit_or i m (2 ^ v) ∙ omega (arith, (power_bits v).1 i lt)

bit-mark : (v m : ℕ) (b : Bool) → m < 2 ^ v → bit v (mark v m b) ≡ (if b then 1 else 0)
bit-mark v m false below =
    bit-bit_or v m 0 ∙ omega (arith, bit-zero v, bit_high v v m below (omega arith))
bit-mark v m true below = bit-bit_or v m (2 ^ v) ∙ omega (arith, (power_bits v).0, bit-le-one v m)

module _ {S : Type 0} (card : Card S) (ohN : ℕ) (good errors : ℕ → ℕ) (w : World S)
    (links : (v : ℕ) → v < 24 → read_reg card (link_good ohN v) w ≡ (ok (good v), w))
    (counts : (v : ℕ) → v < 24 → read_reg card (sync_err_cnt ohN v) w ≡ (ok (errors v), w)) where
  abbrev synced : ℕ → Bool
  synced v = not (good v == 0) && (errors v == 0)

  -- The synchronised VFATs below `v`.
  abbrev IsSyncMask : ℕ → ℕ → Type 0
  IsSyncMask v m = (m < 2 ^ v) × ((i : ℕ) → i < v → bit i m ≡ (if synced i then 1 else 0))

  IsSyncMask-step : (v m : ℕ) → IsSyncMask v m → IsSyncMask (v + 1) (mark v m (synced v))
  IsSyncMask-step v m (below, bits) = (mark-lt v m (synced v) below, at)
    where
      at : (i : ℕ) → i < v + 1 → bit i (mark v m (synced v)) ≡ (if synced i then 1 else 0)
      at i lt = elim (lt_or_le i v) [
        | inl less ↦ bit-mark_below v m i (synced v) less ∙ bits i less
        | inr le ↦ let same : i ≡ v = omega arith in rw same (bit-mark v m (synced v) below)
      ]

  is_synced-eq : (v : ℕ) → v < 24 → is_synced card ohN v w ≡ (ok (synced v), w)
  unfolding is_synced
  is_synced-eq v lt = rw (links v lt, counts v lt) refl

  sync_from_lem :
      (left v m : ℕ)
      → v + left ≡ 24
      → IsSyncMask v m
      → (m' : ℕ) × (sync_from card ohN v left m w ≡ (ok m', w)) × IsSyncMask 24 m'
  unfolding sync_from
  sync_from_lem zero v m e inv =
      (m, refl, subst (λ k. IsSyncMask k m) {x = v} {y = 24} (omega arith) inv)
  sync_from_lem (suc left) v m e inv =
      rw (is_synced-eq v (omega arith))
        (sync_from_lem left (v + 1) (mark v m (synced v)) (omega arith) (IsSyncMask-step v m inv))

  -- If the registers of the links read the numbers good and errors and the reads change nothing,
  -- vfatSyncCheckLocal gives a number below 2 ^ 24 in which bit i is set exactly if link i is good
  -- and has no synchronisation error.
  pub vfat_sync_check_local_lem :
      (goodVFATs : ℕ) × (vfat_sync_check_local card ohN w ≡ (ok goodVFATs, w))
      × ((goodVFATs < 2 ^ 24)
          × ((i : ℕ)
              → i < 24
              → bit i goodVFATs ≡ (if not (good i == 0) && (errors i == 0) then 1 else 0)))
  unfolding vfat_sync_check_local
  vfat_sync_check_local_lem = sync_from_lem 24 0 0 refl (omega arith, λ i lt. absurd (omega arith))
