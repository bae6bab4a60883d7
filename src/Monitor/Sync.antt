-- ===== src/Monitor/Sync.antt =====
-- src/daq_monitor.cpp: when the monitoring of the links to the VFATs warns.
use ctp7_modules.Prelude.{
  ℕ, zero, suc, ◌+◌, ◌<◌, String, List, ◌∷◌, Bool, true, false, not, ◌||◌, if◌then◌else◌, ◌≡◌, refl,
  ◌∙◌, ap, arith, all_below, Bool-cases, inl, inr,
}
use ctp7_modules.Effect.{Card, Reply, text, ok, idle, set_string, set_word, continue}
use ctp7_modules.Constants.{vfats_per_oh}
use ctp7_modules.Register.File.{RegisterFile}
use ctp7_modules.Monitor.{int_ltb, int_rounds}
use ctp7_modules.Monitor.Links.{
  vfat_key, vfat_pairs, sync_errors, report_vfat_link, vfat_links, oh_vfat_links,
  getmon_vfat_link_local,
}
use ctp7_modules.Monitor.Laws.{all_known, read_replies, report_as-replies}

-- A flag that a counted loop sets.
any_from : (ℕ → Bool) → ℕ → ℕ → Bool → Bool
any_from p i zero b = b
any_from p i (suc left) b = any_from p (i + 1) left (p i || b)

any_from-last :
    (p : ℕ → Bool) (left i : ℕ) (b : Bool)
    → any_from p i (suc left) b ≡ (p (i + left) || any_from p i left b)
unfolding any_from
any_from-last p zero i b = let e : i ≡ i + 0 = omega arith in ap (λ j. p j || b) e
any_from-last p (suc left) i b =
    let e : i + 1 + left ≡ i + suc left = omega arith in
    any_from-last p left (i + 1) (p i || b) ∙ ap (λ j. p j || any_from p (i + 1) left (p i || b)) e

any_from-carry :
    (p : ℕ → Bool) (left i : ℕ) (b : Bool) → any_from p i left b ≡ (any_from p i left false || b)
unfolding any_from
any_from-carry p zero i b = refl
any_from-carry p (suc left) i b =
    let one = any_from-carry p left (i + 1) (p i || b) in
    let two = any_from-carry p left (i + 1) (p i || false) in ground arith

-- Set if not all are without.
any_from-all_below :
    (p : ℕ → Bool) (left : ℕ) → any_from p 0 left false ≡ not (all_below left (λ i. not (p i)))
unfolding any_from
any_from-all_below p zero = refl
any_from-all_below p (suc left) =
    let zero_front : 0 + left ≡ left = omega arith in
    let last = any_from-last p left 0 false in
    let rest = any_from-all_below p left in
    last ∙ ap (λ j. p j || any_from p 0 left false) zero_front ∙ ground (arith, rest)

not_of : (a b : Bool) → a ≡ not b → not a ≡ b
not_of a true e = rw e refl
not_of a false e = rw e refl

-- The registers of one VFAT, with their keys.
abbrev pub vfat_link_pairs : ℕ → ℕ → List (String × String)
vfat_link_pairs ohN vfatN =
    (vfat_key ohN vfatN "SYNC_ERR_CNT", sync_errors ohN vfatN) ∷ vfat_pairs ohN vfatN

-- The replies of the two loops.
unfoldable pub vfat_replies : (String → ℕ) → ℕ → ℕ → ℕ → List Reply → List Reply
vfat_replies value ohN vfatN zero r = r
vfat_replies value ohN vfatN (suc left) r =
    vfat_replies value ohN (vfatN + 1) left (read_replies value (vfat_link_pairs ohN vfatN) r)

unfoldable pub vfat_oh_replies : (String → ℕ) → ℕ → ℕ → List Reply → List Reply
vfat_oh_replies value ohN zero r = r
vfat_oh_replies value ohN (suc left) r =
    vfat_oh_replies value (ohN + 1) left (vfat_replies value ohN 0 vfats_per_oh r)

abbrev pub out_of_sync : Reply
out_of_sync = set_string "warning" (text "One or more VFATs found to be out of sync\n")

-- The count of one VFAT, as an `int`, is positive.
abbrev pub has_errors : (String → ℕ) → ℕ → ℕ → Bool
has_errors value ohN vfatN = int_ltb 0 (value (sync_errors ohN vfatN))

-- No VFAT of the first `n` OptoHybrids has a positive count.
unfoldable pub all_in_sync : (String → ℕ) → ℕ → Bool
all_in_sync value n =
    all_below n (λ ohN. all_below vfats_per_oh (λ vfatN. not (has_errors value ohN vfatN)))

module _ {S : Type 0} (card : Card S) (known : String → Bool) (file : RegisterFile card known) where
  open file use {get, reads}

  module _ (h : S) where
    report_vfat_link-replies :
        (ohN vfatN : ℕ) (r : List Reply)
        → all_known known (vfat_link_pairs ohN vfatN) ≡ true
        → report_vfat_link card ohN vfatN (idle h r) ≡ (
          ok (has_errors (get h) ohN vfatN),
          idle h (read_replies (get h) (vfat_link_pairs ohN vfatN) r),
        )
    unfolding report_vfat_link all_known read_replies
    report_vfat_link-replies ohN vfatN r k =
        let here : known (sync_errors ohN vfatN) ≡ true = ground arith in
        let rest : all_known known (vfat_pairs ohN vfatN) ≡ true = ground arith in
        rw (reads (sync_errors ohN vfatN) h r here, continue)
          (ap (λ x. continue x (λ _ w. (ok (has_errors (get h) ohN vfatN), w)))
            (report_as-replies card known file (vfat_pairs ohN vfatN) h
              (set_word (vfat_key ohN vfatN "SYNC_ERR_CNT") (get h (sync_errors ohN vfatN)) ∷ r)
              rest))

    vfat_links-replies :
        (ohN left vfatN : ℕ) (b : Bool) (r : List Reply)
        → ((i : ℕ) → i < vfatN + left → all_known known (vfat_link_pairs ohN i) ≡ true)
        → vfat_links card ohN vfatN left b (idle h r) ≡ (
          ok (any_from (has_errors (get h) ohN) vfatN left b),
          idle h (vfat_replies (get h) ohN vfatN left r),
        )
    unfolding vfat_links any_from vfat_replies
    vfat_links-replies ohN zero vfatN b r k = refl
    vfat_links-replies ohN (suc left) vfatN b r k =
        rw (report_vfat_link-replies ohN vfatN r (k vfatN (omega arith)), continue)
          (vfat_links-replies ohN left (vfatN + 1) (has_errors (get h) ohN vfatN || b)
            (read_replies (get h) (vfat_link_pairs ohN vfatN) r) (λ i lt. k i (omega arith)))

    abbrev oh_errors : ℕ → Bool
    oh_errors ohN = any_from (has_errors (get h) ohN) 0 vfats_per_oh false

    oh_vfat_links-replies :
        (left ohN : ℕ) (b : Bool) (r : List Reply)
        → ((o i : ℕ) → o < ohN + left → i < 24 → all_known known (vfat_link_pairs o i) ≡ true)
        → oh_vfat_links card ohN left b (idle h r)
          ≡ (ok (any_from oh_errors ohN left b), idle h (vfat_oh_replies (get h) ohN left r))
    unfolding oh_vfat_links any_from vfat_oh_replies
    oh_vfat_links-replies zero ohN b r k = refl
    oh_vfat_links-replies (suc left) ohN b r k =
        rw
          (
            vfat_links-replies ohN 24 0 b r (λ i lt. k ohN i (omega arith) (omega arith)),
            any_from-carry (has_errors (get h) ohN) 24 0 b,
            continue,
          )
          (oh_vfat_links-replies left (ohN + 1) (oh_errors ohN || b)
            (vfat_replies (get h) ohN 0 24 r) (λ o i lt lt'. k o i (omega arith) lt'))

    all_in_sync-flag : (n : ℕ) → any_from oh_errors 0 n false ≡ not (all_in_sync (get h) n)
    unfolding all_in_sync
    all_in_sync-flag n =
        let each : (λ o. not (oh_errors o))
            ≡ (λ o. all_below 24 (λ v. not (has_errors (get h) o v))) =
          λ i o.
            not_of (oh_errors o) (all_below 24 (λ v. not (has_errors (get h) o v)))
              (any_from-all_below (has_errors (get h) o) 24) i in
        any_from-all_below oh_errors n ∙ ap (λ p. not (all_below n p)) each

    -- Over registers that keep what is written to them, with the counters of the VFATs of the
    -- first n OptoHybrids in the table, getmonVFATLinkLocal without a reset leaves the hardware as
    -- it is, replies with the three counters of each VFAT in order, and adds the warning exactly
    -- if some count of synchronisation errors is positive as an int.
    pub getmon_vfat_link_local-warns :
        (n : ℕ) (r : List Reply)
        → ((o i : ℕ) → o < int_rounds n → i < 24 → all_known known (vfat_link_pairs o i) ≡ true)
        → getmon_vfat_link_local card n false (idle h r) ≡ (
          ok tt,
          idle h (
              if all_in_sync (get h) (int_rounds n)
              then vfat_oh_replies (get h) 0 (int_rounds n) r
              else out_of_sync ∷ vfat_oh_replies (get h) 0 (int_rounds n) r),
        )
    unfolding getmon_vfat_link_local
    getmon_vfat_link_local-warns n r k =
        rw
          (
            oh_vfat_links-replies (int_rounds n) 0 false r (λ o i lt lt'. k o i (omega arith) lt'),
            all_in_sync-flag (int_rounds n),
            continue,
          )
          (elim (Bool-cases (all_in_sync (get h) (int_rounds n))) [
            | inl good ↦ rw good refl
            | inr bad ↦ rw bad refl
          ])
