-- ===== src/Monitor/Restore.antt =====
-- src/daq_monitor.cpp: the monitoring of the SCA leaves the board as it was, and the mask of a
-- request.
use package.text.Mathlib.Text.{◌==◌ as str_eq}
use package.text.Mathlib.TextEquality.{eq_iff}
use ctp7_modules.Prelude.{
  ℕ, ◌+◌, ◌-◌, ◌/◌, ◌%◌, ◌^◌, ◌<◌, ◌≤◌, String, List, Bool, true, false, ltb, ◌==◌, if◌then◌else◌,
  bit_and, ◌≡◌, refl, ◌∙◌, ap, arith, min, Bool-cases, inl, inr, ==_iff, all_below-at,
}
use ctp7_modules.Prelude.Bits.{bit_and-le_right, bit_and_low, complement}
use ctp7_modules.Effect.{Card, World, Reply, ok, fault, idle, continue}
use ctp7_modules.Register.File.{RegisterFile}
use ctp7_modules.Names.{◌◇◌}
use ctp7_modules.Monitor.{num_of_oh, mask_within, cut_mask}
use ctp7_modules.Monitor.Counters.{oh_pairs, oh_keys}
use ctp7_modules.Monitor.Slow.{monitoring, sca_names, getmon_oh_sca_main_local}
use ctp7_modules.Monitor.Laws.{all_known, oh_replies, monitor_ohs-replies}

-- The register that switches the monitoring off.
abbrev pub monitoring_off : String
monitoring_off = monitoring ◇ "MONITORING_OFF"

module _ {S : Type 0} (card : Card S) (known : String → Bool) (file : RegisterFile card known) where
  open file use {get, put, reads, writes, get-put}

  -- Two writes to one register, the second one with what it held before.
  restored :
      (h : S) (a name : String) (v : ℕ)
      → known a ≡ true
      → known name ≡ true
      → v < 2 ^ 32
      → (if str_eq a name then get h a else get (put h a v) name) ≡ get h name
  restored h a name v k k' fits = elim (Bool-cases (str_eq a name)) [
    | inl same ↦ rw same (ap (get h) ((eq_iff a name).0 same))
    | inr apart ↦ rw apart (get-put h a name v k k' fits ∙ ground (arith, apart))
  ]

  -- Over registers that keep what is written to them, under the conditions on the numbers of
  -- OptoHybrids and the table as for the monitoring of the others, getmonOHSCAmainLocal switches
  -- the monitoring of the ADCs over and back: it returns, and each register then has the value
  -- that it had before.
  pub getmon_oh_sca_main_local-restores :
      (n ohMask : ℕ) (h : S) (r : List Reply)
      → known num_of_oh ≡ true
      → known monitoring_off ≡ true
      → ((i : ℕ)
          → i < min (get h num_of_oh) n
          → all_known known (oh_pairs monitoring sca_names i) ≡ true)
      → n < 2 ^ 31
      → get h num_of_oh < 2 ^ 31
      → get h monitoring_off < 2 ^ 32
      → min (get h num_of_oh) n ≤ 32
      → (h' : S) × (r' : List Reply) × (getmon_oh_sca_main_local card n ohMask (idle h r)
          ≡ (ok tt, idle h' r'))
        × ((name : String) → known name ≡ true → get h' name ≡ get h name)
  unfolding getmon_oh_sca_main_local
  getmon_oh_sca_main_local-restores n ohMask h r k_num k_off k_oh small m_small off_small le =
      let off = bit_and (complement 32 ohMask) 0x3fc in
      let off_fits : off < 2 ^ 32 = omega (arith, bit_and-le_right (complement 32 ohMask) 0x3fc) in
      let h1 = put h monitoring_off off in
      let same : get h1 num_of_oh ≡ get h num_of_oh =
        get-put h monitoring_off num_of_oh off k_off k_num off_fits in
      let replies =
        oh_replies (get h1) (oh_keys sca_names) (oh_pairs monitoring sca_names) ohMask 0
          (min (get h1 num_of_oh) n) r in
      let loop =
        monitor_ohs-replies card known file (oh_keys sca_names) (oh_pairs monitoring sca_names)
          ohMask n h1 r k_num small (rw same m_small) (rw same le) (rw same k_oh) in
      let h2 = put h1 monitoring_off (get h monitoring_off) in
      (
        h2,
        replies,
        rw
            (
              reads monitoring_off h r k_off,
              writes monitoring_off off h r k_off,
              loop,
              writes monitoring_off (get h monitoring_off) h1 replies k_off,
              continue,
            )
            refl,
        λ name k.
            get-put h1 monitoring_off name (get h monitoring_off) k_off k off_small
            ∙ restored h monitoring_off name off k_off k off_fits,
      )

low_ones : (n : ℕ) → n ≤ 12 → 0xfff / 2 ^ ((12 + 2 ^ 32 - n) % 2 ^ 32) ≡ 2 ^ n - 1
low_ones n le = (==_iff (0xfff / 2 ^ ((12 + 2 ^ 32 - n) % 2 ^ 32)) (2 ^ n - 1)).0 (
    all_below-at 13 (λ (m : ℕ). 0xfff / 2 ^ ((12 + 2 ^ 32 - m) % 2 ^ 32) == 2 ^ m - 1) n refl
      (omega arith))

-- For a request for more OptoHybrids than the n there are, with n below 2 ^ 31, the mask is cut to
-- its lowest n bits if n is at most 12, and the shift is undefined if n is more.
pub mask_within-low :
    {S : Type 0} (ohMask n : ℕ) (w : World S)
    → n < 2 ^ 31
    → (n ≤ 12 → mask_within ohMask n w ≡ (ok (ohMask % 2 ^ n), w))
      × (12 < n → mask_within ohMask n w ≡ (fault, w))
unfolding mask_within cut_mask
mask_within-low ohMask n w small = (
  λ le.
      let shift : ltb ((12 + 2 ^ 32 - n) % 2 ^ 32) 32 ≡ true = ground arith in
      rw (shift, low_ones n le, bit_and_low n ohMask) refl,
  λ over. let shift : ltb ((12 + 2 ^ 32 - n) % 2 ^ 32) 32 ≡ false = ground arith in rw shift refl,
)
