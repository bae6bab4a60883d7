-- ===== src/Optohybrid/Scan/Pulses.antt =====
-- Stopping the calibration pulses of src/optohybrid.cpp, over any register file.
use package.text.Mathlib.Text.{◌==◌ as str_eq}
use package.text.Mathlib.TextEquality.{eq_iff}
use ctp7_modules.Prelude.{
  ℕ, zero, suc, ◌+◌, ◌-◌, ◌^◌, ◌<◌, ◌≤◌, String, List, Bool, true, false, ◌==◌, ◌≡◌, refl, sym, ◌∙◌,
  arith, lt_or_le, Bool-cases, inl, inr,
}
use ctp7_modules.Prelude.Bits.{bit, bit-le-one}
use ctp7_modules.Effect.{Card, M, Reply, ok, idle, continue}
use ctp7_modules.Names.{decimal, int_decimal, ◌◇◌}
use ctp7_modules.Loops.{for_each, for_unmasked, for_range, progression}
use ctp7_modules.Loops.Laws.{for_range-eq-for_each}
use ctp7_modules.Register.File.{RegisterFile}
use ctp7_modules.Optohybrid.Broadcast.{geb}
use ctp7_modules.Optohybrid.Scan.{stop_pulse_v3, stop_cal_pulse_2_all_channels_local}

-- The register that lets a channel be pulsed.
abbrev pub pulse_enable : ℕ → ℕ → ℕ → String
pulse_enable ohN vfatN chan =
    geb ohN
    ◇ ".VFAT"
    ◇ decimal vfatN
    ◇ ".VFAT_CHANNELS.CHANNEL"
    ◇ int_decimal chan
    ◇ ".CALPULSE_ENABLE"

abbrev pub release_major : String
release_major = "GEM_AMC.GEM_SYSTEM.RELEASE.MAJOR"

module _ {S : Type 0} (card : Card S) (known : String → Bool) (file : RegisterFile card known)
    (ohN : ℕ) where
  open file use {get, put, reads, writes, get-put}

  -- What is 0 stays 0.
  abbrev KeepsZero : S → S → Type 0
  KeepsZero h h' = (o : String) → known o ≡ true → get h o ≡ 0 → get h' o ≡ 0

  put-KeepsZero : (h : S) (n : String) → known n ≡ true → KeepsZero h (put h n 0)
  put-KeepsZero h n k o k' z = ground (arith, get-put h n o 0 k k' (omega arith))

  put_here : (h : S) (n : String) → known n ≡ true → get (put h n 0) n ≡ 0
  put_here h n k = get-put h n n 0 k k (omega arith) ∙ rw ((eq_iff n n).1 refl) refl

  -- The channels from `c` on, `n` of them, of one VFAT.
  channels-clear :
      (vfatN n c : ℕ) (h : S) (r : List Reply)
      → ((d : ℕ) → c ≤ d → d < c + n → known (pulse_enable ohN vfatN d) ≡ true)
      → (h' : S) × (for_each (stop_pulse_v3 card ohN vfatN) (progression 1 c n) (idle h r)
          ≡ (ok tt, idle h' r))
        × ((d : ℕ) → c ≤ d → d < c + n → get h' (pulse_enable ohN vfatN d) ≡ 0)
        × KeepsZero h h'
        × ((o : String)
            → known o ≡ true
            → ((d : ℕ) → c ≤ d → d < c + n → str_eq (pulse_enable ohN vfatN d) o ≡ false)
            → get h' o ≡ get h o)
  unfolding for_each progression stop_pulse_v3
  channels-clear vfatN zero c h r k =
      (h, refl, λ d lo hi. absurd (omega arith), λ o k' z. z, λ o k' other. refl)
  channels-clear vfatN (suc n) c h r k =
      let name : String = pulse_enable ohN vfatN c in
      let k_c : known name ≡ true = k c (omega arith) (omega arith) in
      let (h', run, clear, zeros, others) =
        channels-clear vfatN n (c + 1) (put h name 0) r
          (λ d lo hi. k d (omega arith) (omega arith)) in
      (
        h',
        rw (writes name 0 h r k_c, continue) run,
        λ d lo hi. elim (lt_or_le c d) [
          | inl later ↦ clear d (omega arith) (omega arith)
          | inr first ↦
              let here : c ≡ d = omega arith in rw (sym here) (zeros name k_c (put_here h name k_c))
        ],
        λ o k' z. zeros o k' (put-KeepsZero h name k_c o k' z),
        λ o k' other.
            others o k' (λ d lo hi. other d (omega arith) (omega arith))
            ∙ get-put h name o 0 k_c k' (omega arith)
            ∙ rw (other c (omega arith) (omega arith)) refl,
      )

  module _ (fuel mask ch_min ch_max : ℕ) (order : ch_min ≤ ch_max + 1) (room : ch_max + 1 < 2 ^ 32)
      (enough : ch_max + 1 - ch_min < fuel)
      (pulses : (v c : ℕ)
        → v < 24
        → bit v mask ≡ 0
        → ch_min ≤ c
        → c ≤ ch_max
        → known (pulse_enable ohN v c) ≡ true) where
    abbrev stop_vfat : ℕ → M S (Unit {0})
    stop_vfat vfatN = for_range fuel 1 ch_max (stop_pulse_v3 card ohN vfatN) ch_min

    vfats-clear :
        (left vfatN : ℕ) (h : S) (r : List Reply)
        → vfatN + left ≡ 24
        → (h' : S) × (for_unmasked stop_vfat mask vfatN left (idle h r) ≡ (ok tt, idle h' r))
          × ((v c : ℕ)
              → vfatN ≤ v
              → v < 24
              → bit v mask ≡ 0
              → ch_min ≤ c
              → c ≤ ch_max
              → get h' (pulse_enable ohN v c) ≡ 0)
          × KeepsZero h h'
          × ((o : String)
              → known o ≡ true
              → ((v c : ℕ)
                  → vfatN ≤ v
                  → v < 24
                  → bit v mask ≡ 0
                  → ch_min ≤ c
                  → c ≤ ch_max
                  → str_eq (pulse_enable ohN v c) o ≡ false)
              → get h' o ≡ get h o)
    unfolding for_unmasked
    vfats-clear zero vfatN h r end =
        (h, refl, λ v c lo hi. absurd (omega arith), λ o k' z. z, λ o k' other. refl)
    vfats-clear (suc left) vfatN h r end = elim (Bool-cases (bit vfatN mask == 1)) [
      | inl masked ↦
          let (h', run, clear, zeros, others) = vfats-clear left (vfatN + 1) h r (omega arith) in
          (
            h',
            rw (masked, for_unmasked) run,
            λ v c lo hi un. elim (lt_or_le vfatN v) [
              | inl later ↦ clear v c (omega arith) hi un
              | inr first ↦ let here : vfatN ≡ v = omega arith in absurd (ground (arith, here))
            ],
            zeros,
            λ o k' other. others o k' (λ v c lo. other v c (omega arith)),
          )
      | inr left_in ↦
          let un : bit vfatN mask ≡ 0 = ground (arith, bit-le-one vfatN mask) in
          let (h1, run1, clear1, zeros1, others1) =
            channels-clear vfatN (ch_max + 1 - ch_min) ch_min h r
              (λ d lo hi. pulses vfatN d (omega arith) un lo (omega arith)) in
          let (h', run, clear, zeros, others) = vfats-clear left (vfatN + 1) h1 r (omega arith) in
          let one : stop_vfat vfatN (idle h r) ≡ (ok tt, idle h1 r) =
            for_range-eq-for_each (ch_max + 1 - ch_min) fuel 1 ch_max ch_min
              (stop_pulse_v3 card ohN vfatN) (idle h r) (omega arith) room enough (omega arith)
              (omega arith)
            ∙ run1 in
          (
            h',
            rw (left_in, for_unmasked, one, continue) run,
            λ v c lo hi un' lo' hi'. elim (lt_or_le vfatN v) [
              | inl later ↦ clear v c (omega arith) hi un' lo' hi'
              | inr first ↦
                  let here : vfatN ≡ v = omega arith in
                  zeros (pulse_enable ohN v c) (pulses v c hi un' lo' hi')
                    (rw (sym here) (clear1 c lo' (omega arith)))
            ],
            λ o k' z. zeros o k' (zeros1 o k' z),
            λ o k' other.
                others o k' (λ v c lo. other v c (omega arith))
                ∙ others1 o k'
                    (λ d lo hi. other vfatN d (omega arith) (omega arith) un lo (omega arith)),
          )
    ]

    -- Over registers that keep what is written to them, with firmware 3, with the registers of the
    -- chosen channels in the table, the bound of the channels below the end of 32 bits and a fuel
    -- above their number, stopCalPulse2AllChannels returns: the register CALPULSE_ENABLE of each
    -- channel from ch_min to ch_max of each VFAT that the mask leaves is 0, and each other
    -- register is as before.
    pub stop_cal_pulse-clears :
        (h : S) (r : List Reply)
        → known release_major ≡ true
        → get h release_major ≡ 3
        → (h' : S) × (stop_cal_pulse_2_all_channels_local card fuel ohN mask ch_min ch_max
              (idle h r)
            ≡ (ok tt, idle h' r))
          × ((v c : ℕ)
              → v < 24
              → bit v mask ≡ 0
              → ch_min ≤ c
              → c ≤ ch_max
              → get h' (pulse_enable ohN v c) ≡ 0)
          × ((o : String)
              → known o ≡ true
              → ((v c : ℕ)
                  → v < 24
                  → bit v mask ≡ 0
                  → ch_min ≤ c
                  → c ≤ ch_max
                  → str_eq (pulse_enable ohN v c) o ≡ false)
              → get h' o ≡ get h o)
    unfolding stop_cal_pulse_2_all_channels_local
    stop_cal_pulse-clears h r k three =
        let (h', run, clear, zeros, others) = vfats-clear 24 0 h r refl in
        (
          h',
          rw (reads release_major h r k, three, continue) run,
          λ v c. clear v c (omega arith),
          λ o k' other. others o k' (λ v c lo. other v c),
        )
