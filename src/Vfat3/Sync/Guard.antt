-- ===== src/Vfat3/Sync/Guard.antt =====
-- The guard on the synchronised VFATs: when it lets a call through, and the masks that amc.cpp makes.
use ctp7_modules.Prelude.{
  ℕ, ◌+◌, ◌^◌, ◌<◌, min, false, not, ◌&&◌, ltb, ◌==◌, if◌then◌else◌, bit_and, ◌≡◌, ◌≢◌, refl, ap,
  arith, ◌∙◌, ◌∷◌, inl, inr, lt_or_le, ne→==_false, eq→==,
}
use ctp7_modules.Prelude.Bits.{
  bit, bit-le-one, bit-zero, bit_high, bit-bit_and, bit_ext, complement, bit-complement,
  bit_and-le_right,
}
use ctp7_modules.Effect.{Card, World, M, ok, set_string}
use ctp7_modules.Register.{read_reg}
use ctp7_modules.Amc.Mask.{sync_err_cnt, get_oh_vfat_mask_local}
use ctp7_modules.Amc.Mask.Laws.{get_oh_vfat_mask_local_lem}
use ctp7_modules.Vfat3.Sync.{link_good, not_mask, not_synced, with_synced}
use ctp7_modules.Vfat3.Sync.Laws.{vfat_sync_check_local_lem}

-- The inverted mask has the other bits, of the lowest 24.
pub bit-not_mask : (i mask : ℕ) → mask < 2 ^ 32 → i < 24 → bit i (not_mask mask) + bit i mask ≡ 1
unfolding not_mask
bit-not_mask i mask fits lt =
    let all_ones : bit i 0xffffff ≡ 1 =
      omega (arith, bit-complement 24 i 0 (omega arith) lt, bit-zero i) in
    omega (
      arith,
      bit-bit_and i (complement 32 mask) 0xffffff,
      all_ones,
      bit-complement 32 i mask fits (omega arith),
      bit-le-one i (complement 32 mask),
    )

not_mask-lt : (mask : ℕ) → not_mask mask < 2 ^ 24
unfolding not_mask
not_mask-lt mask = omega (arith, bit_and-le_right (complement 32 mask) 0xffffff)

-- A set of VFATs that has all of another one.
contains_all :
    (notmask goodVFATs : ℕ)
    → notmask < 2 ^ 24
    → ((i : ℕ) → i < 24 → bit i notmask ≡ 1 → bit i goodVFATs ≡ 1)
    → bit_and notmask goodVFATs ≡ notmask
contains_all notmask goodVFATs below covers =
    bit_ext _ _ (λ i. bit-bit_and i notmask goodVFATs ∙ same i)
  where
    same : (i : ℕ) → min (bit i notmask) (bit i goodVFATs) ≡ bit i notmask
    same i = elim (lt_or_le i 24) [
      | inl lt ↦ elim (lt_or_le (bit i notmask) 1) [
        | inl none_there ↦ omega arith
        | inr some_there ↦
            omega (arith, bit-le-one i notmask, covers i lt (omega (arith, bit-le-one i notmask)))
      ]
      | inr le ↦ omega (arith, bit_high 24 i notmask below le)
    ]

lacks_one :
    (notmask goodVFATs i : ℕ)
    → bit i notmask ≡ 1
    → bit i goodVFATs ≡ 0
    → bit_and notmask goodVFATs ≢ notmask
lacks_one notmask goodVFATs i wanted missing same =
    omega (arith, bit-bit_and i notmask goodVFATs, ap (bit i) same)

marked :
    (good errors : ℕ) {b : ℕ}
    → b ≡ (if not (good == 0) && (errors == 0) then 1 else 0)
    → (good ≢ 0) × (errors ≡ 0)
    → b ≡ 1
marked good errors e (up, clean) = ground arith

clean : (errors : ℕ) {b : ℕ} → b ≡ (if ltb 0 errors then 1 else 0) → b ≢ 1 → errors ≡ 0
clean errors e free = ground arith

module _ {S : Type 0} (card : Card S) (ohN : ℕ) (good errors : ℕ → ℕ) (w : World S)
    (links : (v : ℕ) → v < 24 → read_reg card (link_good ohN v) w ≡ (ok (good v), w))
    (counts : (v : ℕ) → v < 24 → read_reg card (sync_err_cnt ohN v) w ≡ (ok (errors v), w)) where
  -- All VFATs that the mask leaves are synchronised.
  pub with_synced-passes :
      (mask : ℕ) (go : ℕ → M S (Unit {0}))
      → mask < 2 ^ 32
      → ((i : ℕ) → i < 24 → bit i mask ≢ 1 → (good i ≢ 0) × (errors i ≡ 0))
      → with_synced card ohN mask go w ≡ go (not_mask mask) w
  unfolding with_synced
  with_synced-passes mask go fits synced =
      let (goodVFATs, runs, (below, bits)) =
        vfat_sync_check_local_lem card ohN good errors w links counts in
      let covered = contains_all (not_mask mask) goodVFATs (not_mask-lt mask) (λ i lt wanted.
        marked (good i) (errors i) (bits i lt)
          (synced i lt (omega (arith, bit-not_mask i mask fits lt)))) in
      rw (runs, eq→== _ _ covered) refl

  -- If a VFAT that the mask leaves has a bad link or synchronisation errors, and the reads change
  -- nothing, the guard of configureVFAT3sLocal, configureVFAT3DacMonitorLocal and
  -- getVFAT3ChipIDsLocal ends the function: the hardware is as before and the only reply is the
  -- error.
  pub with_synced-refuses :
      (mask i : ℕ) (go : ℕ → M S (Unit {0}))
      → mask < 2 ^ 32
      → i < 24
      → bit i mask ≢ 1
      → (not (good i == 0) && (errors i == 0)) ≡ false
      → (goodVFATs : ℕ) × (with_synced card ohN mask go w ≡ (
        ok tt,
        record w { reply = set_string "error" (not_synced goodVFATs (not_mask mask)) ∷ w.reply },
      ))
  unfolding with_synced
  with_synced-refuses mask i go fits lt free bad =
      let (goodVFATs, runs, (below, bits)) =
        vfat_sync_check_local_lem card ohN good errors w links counts in
      let wanted : bit i (not_mask mask) ≡ 1 =
        omega (arith, bit-not_mask i mask fits lt, bit-le-one i mask) in
      let missing : bit i goodVFATs ≡ 0 = bits i lt ∙ rw bad refl in
      (
        goodVFATs,
        rw (runs, ne→==_false _ _ (lacks_one (not_mask mask) goodVFATs i wanted missing)) refl,
      )

  -- Where the counters of the synchronisation errors read the numbers errors, all links of the
  -- OptoHybrid are good and the reads change nothing, the mask that getOHVFATMaskLocal makes
  -- passes the guard on synchronised VFATs of vfat3.cpp: the rest of the function runs with the
  -- inverted mask.
  pub with_synced-own_mask :
      (go : ℕ → M S (Unit {0}))
      → ((i : ℕ) → i < 24 → good i ≢ 0)
      → (mask : ℕ) × (get_oh_vfat_mask_local card ohN w ≡ (ok mask, w))
        × (with_synced card ohN mask go w ≡ go (not_mask mask) w)
  with_synced-own_mask go up =
      let (mask, runs, (below, bits)) = get_oh_vfat_mask_local_lem card ohN errors w counts in
      (
        mask,
        runs,
        with_synced-passes mask go (omega arith)
            (λ i lt free. (up i lt, clean (errors i) (bits i lt) free)),
      )
