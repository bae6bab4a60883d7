-- ===== src/Monitor/Laws.antt =====
-- src/daq_monitor.cpp: what the monitoring replies.
use ctp7_modules.Prelude.{
  ℕ, zero, suc, ◌+◌, ◌^◌, ◌<◌, ◌≤◌, String, List, [], ◌∷◌, Bool, true, false, ltb, ◌==◌,
  if◌then◌else◌, ◌≡◌, refl, arith, min, Bool-cases, inl, inr,
}
use ctp7_modules.Prelude.Bits.{bit}
use ctp7_modules.Effect.{Card, M, World, Reply, ok, idle, set_word, continue}
use ctp7_modules.Register.{read_reg, dead}
use ctp7_modules.Register.File.{RegisterFile}
use ctp7_modules.Monitor.{
  int_ltb, int_rounds, int_min, num_of_oh, for_ohs, report_as, report_dead, local_ohs, monitor_ohs,
}

-- The replies for one list of registers, the last one first.
unfoldable pub read_replies : (String → ℕ) → List (String × String) → List Reply → List Reply
read_replies value [] r = r
read_replies value (p ∷ ps) r = read_replies value ps (set_word p.0 (value p.1) ∷ r)

unfoldable pub dead_replies : List String → List Reply → List Reply
dead_replies [] r = r
dead_replies (key ∷ keys) r = dead_replies keys (set_word key dead ∷ r)

-- The replies for the OptoHybrids from `ohN` on, `left` of them.
unfoldable pub oh_replies :
    (String → ℕ)
    → (ℕ → List String)
    → (ℕ → List (String × String))
    → ℕ
    → ℕ
    → ℕ
    → List Reply
    → List Reply
oh_replies value keys pairs ohMask ohN zero r = r
oh_replies value keys pairs ohMask ohN (suc left) r =
    oh_replies value keys pairs ohMask (ohN + 1) left
      (if bit ohN ohMask == 1 then read_replies value (pairs ohN) r else dead_replies (keys ohN) r)

-- All registers of a list are known.
unfoldable pub all_known : (String → Bool) → List (String × String) → Bool
all_known known [] = true
all_known known (p ∷ ps) = if known p.1 then all_known known ps else false

pub int_min-lem : (a b : ℕ) → a < 2 ^ 31 → b < 2 ^ 31 → int_rounds (int_min a b) ≡ min a b
unfolding int_rounds int_min int_ltb
int_min-lem a b ha hb = ground arith

-- A number that is negative as an `int` gives no round.
negative : (v n : ℕ) → 2 ^ 31 ≤ v → v < 2 ^ 32 → n < 2 ^ 32 → int_rounds (int_min v n) ≡ 0
unfolding int_rounds int_min int_ltb
negative v n lo hi small = ground arith

module _ {S : Type 0} where
  pub report_dead-replies :
      (keys : List String) (h : S) (r : List Reply)
      → report_dead keys (idle h r) ≡ (ok tt, idle h (dead_replies keys r))
  unfolding report_dead dead_replies
  report_dead-replies [] h r = refl
  report_dead-replies (key ∷ keys) h r = report_dead-replies keys h (set_word key dead ∷ r)

module _ {S : Type 0} (card : Card S) (known : String → Bool) (file : RegisterFile card known) where
  open file use {get, put, reads, writes, get-put}

  pub report_as-replies :
      (ps : List (String × String)) (h : S) (r : List Reply)
      → all_known known ps ≡ true
      → report_as card ps (idle h r) ≡ (ok tt, idle h (read_replies (get h) ps r))
  unfolding report_as read_replies all_known
  report_as-replies [] h r k = refl
  report_as-replies (p ∷ ps) h r k =
      let here : known p.1 ≡ true = ground arith in
      let rest : all_known known ps ≡ true = ground arith in
      rw (reads p.1 h r here, report_as, continue)
        (report_as-replies ps h (set_word p.0 (get h p.1) ∷ r) rest)

  module _ (keys : ℕ → List String) (pairs : ℕ → List (String × String)) (ohMask : ℕ) where
    for_ohs-replies :
        (left ohN : ℕ) (h : S) (r : List Reply)
        → ohN + left ≤ 32
        → ((i : ℕ) → i < ohN + left → all_known known (pairs i) ≡ true)
        → for_ohs
            (λ i. report_dead (keys i))
            (λ i. report_as card (pairs i))
            ohMask
            ohN
            left
            (idle h r)
          ≡ (ok tt, idle h (oh_replies (get h) keys pairs ohMask ohN left r))
    unfolding for_ohs oh_replies
    for_ohs-replies zero ohN h r le k = refl
    for_ohs-replies (suc left) ohN h r le k =
        let below : ltb ohN 32 ≡ true = ground arith in
        let more = λ (r' : List Reply).
          for_ohs-replies left (ohN + 1) h r' (omega arith) (λ i lt. k i (omega arith)) in
        elim (Bool-cases (bit ohN ohMask == 1)) [
          | inl on ↦
              rw
                (
                  below,
                  on,
                  report_as-replies (pairs ohN) h r (k ohN (omega arith)),
                  for_ohs,
                  continue,
                )
                (more (read_replies (get h) (pairs ohN) r))
          | inr off ↦
              rw (below, off, report_dead-replies (keys ohN) h r, for_ohs, continue)
                (more (dead_replies (keys ohN) r))
        ]

    -- Over registers that keep what is written to them, if both the number n that is asked for and
    -- the number m in NUM_OF_OH are not negative as an int, the smaller one is at most 32 and the
    -- counters of so many OptoHybrids are in the table, the monitoring of the OptoHybrids leaves
    -- the hardware as it is and replies, for each one in order, with its counters if the mask
    -- selects it and else with 0xdeaddead under its keys.
    pub monitor_ohs-replies :
        (n : ℕ) (h : S) (r : List Reply)
        → known num_of_oh ≡ true
        → n < 2 ^ 31
        → get h num_of_oh < 2 ^ 31
        → min (get h num_of_oh) n ≤ 32
        → ((i : ℕ) → i < min (get h num_of_oh) n → all_known known (pairs i) ≡ true)
        → monitor_ohs card
            (λ i. report_dead (keys i))
            (λ i. report_as card (pairs i))
            n
            ohMask
            (idle h r)
          ≡ (ok tt, idle h (oh_replies (get h) keys pairs ohMask 0 (min (get h num_of_oh) n) r))
    unfolding monitor_ohs local_ohs
    monitor_ohs-replies n h r k small m_small le has =
        rw (reads num_of_oh h r k, int_min-lem (get h num_of_oh) n m_small small, continue)
          (for_ohs-replies (min (get h num_of_oh) n) 0 h r (omega arith)
            (λ i lt. has i (omega arith)))

module _ {S : Type 0} (card : Card S) where
  -- If NUM_OF_OH reads a 32-bit number that is negative as an int, as 0xdeaddead of a failed read
  -- is, the monitoring of the OptoHybrids does nothing more, whatever it does for each, and
  -- whichever 32-bit number of OptoHybrids it was called with, 0xdeaddead included.
  pub monitor_ohs-unreadable :
      (masked body : ℕ → M S (Unit {0})) (n ohMask v : ℕ) (w w' : World S)
      → read_reg card num_of_oh w ≡ (ok v, w')
      → 2 ^ 31 ≤ v
      → v < 2 ^ 32
      → n < 2 ^ 32
      → monitor_ohs card masked body n ohMask w ≡ (ok tt, w')
  unfolding monitor_ohs local_ohs for_ohs
  monitor_ohs-unreadable masked body n ohMask v w w' e lo hi small =
      let none_left : int_rounds (int_min v n) ≡ 0 = negative v n lo hi small in
      rw (e, none_left, for_ohs, continue) refl
