-- ===== src/Sca/Command/Laws.antt =====
-- The replies of src/amc/sca.cpp.
use ctp7_modules.Prelude.{
  ℕ, zero, suc, ◌+◌, ◌<◌, List, ◌∷◌, length, get_elem?, some, ◌≡◌, refl, arith, ap,
}
use mathlib.Core.Path.{subst}
use ctp7_modules.Prelude.Bits.{bit}
use ctp7_modules.Effect.{Card, World, ok, continue-eq-ok, ok-injective}
use ctp7_modules.Sca.Command.{
  reply_of, collect_replies, send_sca_command, send_sca_command_with_reply,
}

-- One value for each of `left` links from `oh` on, 0 where the link is not in the mask.
abbrev IsShaped : ℕ → ℕ → ℕ → List ℕ → Type 0
IsShaped ohMask oh left l =
    (length l ≡ left) × ((i : ℕ) → i < left → bit (oh + i) ohMask ≡ 0 → get_elem? l i ≡ some 0)

module _ {S : Type 0} (card : Card S) where
  reply_of-unlinked :
      (ohMask oh : ℕ) (w w' : World S) (v : ℕ)
      → bit oh ohMask ≡ 0
      → reply_of card ohMask oh w ≡ (ok v, w')
      → v ≡ 0
  unfolding reply_of
  reply_of-unlinked ohMask oh w w' v off = rw (off) λ e. cc

  shape_step :
      (ohMask oh left v : ℕ) (rest : List ℕ)
      → IsShaped ohMask (oh + 1) left rest
      → (bit oh ohMask ≡ 0 → v ≡ 0)
      → IsShaped ohMask oh (suc left) (v ∷ rest)
  shape_step ohMask oh left v rest (n, gaps) first = (ap suc n, at)
    where
      at : (i : ℕ) → i < suc left → bit (oh + i) ohMask ≡ 0 → get_elem? (v ∷ rest) i ≡ some 0
      at zero h off =
          ap some (first (subst (λ k. bit k ohMask ≡ 0) {x = oh + 0} {y = oh} (omega arith) off))
      at (suc i) h off =
          gaps i (omega arith)
            (subst (λ k. bit k ohMask ≡ 0) {x = oh + suc i} {y = oh + 1 + i} (omega arith) off)

  collect_replies_lem :
      (ohMask oh left : ℕ) (w w' : World S) (l : List ℕ)
      → collect_replies card ohMask oh left w ≡ (ok l, w')
      → IsShaped ohMask oh left l
  unfolding collect_replies
  collect_replies_lem ohMask oh zero w w' l e =
      subst (IsShaped ohMask oh 0) (ok-injective (ap (λ x. x.0) e))
        (refl, λ i h. absurd (omega arith))
  collect_replies_lem ohMask oh (suc left) w w' l e =
      let (v, w1, first, others) = continue-eq-ok (reply_of card ohMask oh w) _ e in
      let (rest, w2, behind, end) =
        continue-eq-ok (collect_replies card ohMask (oh + 1) left w1) _ others in
      subst (IsShaped ohMask oh (suc left)) (ok-injective (ap (λ x. x.0) end)) (
        shape_step ohMask oh left v rest
          (collect_replies_lem ohMask (oh + 1) left w1 w2 rest behind)
          (λ off. reply_of-unlinked ohMask oh w w1 v off first))

  -- A sendSCACommandWithReply that returns gives twelve replies, with 0 for each link that is not
  -- in the mask.
  pub send_sca_command_with_reply_shape :
      (ch cmd len value ohMask : ℕ) (w w' : World S) (l : List ℕ)
      → send_sca_command_with_reply card ch cmd len value ohMask w ≡ (ok l, w')
      → (length l ≡ 12) × ((i : ℕ) → i < 12 → bit i ohMask ≡ 0 → get_elem? l i ≡ some 0)
  unfolding send_sca_command_with_reply
  send_sca_command_with_reply_shape ch cmd len value ohMask w w' l e =
      let (u, w1, sent, others) =
        continue-eq-ok (send_sca_command card ch cmd len value ohMask w) _ e in
      let (n, gaps) = collect_replies_lem ohMask 0 12 w1 w' l others in
      (n, λ i h off. gaps i h (subst (λ k. bit k ohMask ≡ 0) {x = i} {y = 0 + i} (omega arith) off))
