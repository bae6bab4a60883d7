-- ===== src/Vfat3/ChipId/Laws.antt =====
-- The decoded identifiers, and the words of the reply.
use native.Mathlib.Nat.{pow-suc, one-le-pow}
use ctp7_modules.Prelude.{
  ℕ, zero, suc, ◌+◌, ◌*◌, ◌/◌, ◌%◌, ◌^◌, ◌<◌, ◌≤◌, List, ◌∷◌, onto, tabulate, Bool, true, false,
  ◌≢◌, some, ◌==◌, if◌then◌else◌, ◌≡◌, refl, ap, ◌∙◌, arith, Bool-cases, inl, inr, le→ltb_false,
}
use ctp7_modules.Prelude.Bits.{bit, bit-le-one, mod_double}
use ctp7_modules.Effect.{
  Card, Outcome, Reply, idle, ok, throw, blocked, exited, fault, spinning, set_word,
}
use ctp7_modules.Register.{read_reg, dead}
use ctp7_modules.Optohybrid.Broadcast.{vfat_reg}
use ctp7_modules.Vfat3.ChipId.{
  ReedMuller, code_bits, binary, decode_chip_id, decoded, chip_id_word, report_chip_id,
  report_chip_ids,
}

as_number : (b : ℕ) → b ≤ 1 → (if b == 1 then 1 else 0) ≡ b
as_number b h = ground arith

-- The highest of the low bits, and the others.
mod-pow-suc : (n m : ℕ) → m % 2 ^ suc n ≡ bit n m * 2 ^ n + m % 2 ^ n
mod-pow-suc zero m = omega arith
mod-pow-suc (suc n) m =
    rw
      (
        pow-suc 2 (suc n),
        mod_double (2 ^ suc n) m (one-le-pow (suc n) 2 (omega arith)),
        mod-pow-suc n (m / 2),
      )
      (rw (pow-suc 2 n, mod_double (2 ^ n) m (one-le-pow n 2 (omega arith))) (grind arith))

binary-code_bits : (n m acc : ℕ) → binary acc (code_bits n m) ≡ acc * 2 ^ n + m % 2 ^ n
unfolding binary code_bits
binary-code_bits zero m acc = omega arith
binary-code_bits (suc n) m acc =
    binary-code_bits n m (acc * 2 + (if bit n m == 1 then 1 else 0))
    ∙ rw (as_number (bit n m) (bit-le-one n m), mod-pow-suc n m, pow-suc 2 n) (grind arith)

-- If the Reed-Muller decoder takes the bits of a code word to the 16 bits of a message,
-- decodeChipID gives the message.
pub decode_chip_id-message :
    (rm : ReedMuller) (encChipID m : ℕ)
    → rm.ready ≡ true
    → encChipID ≤ rm.maxdecode
    → rm.decode (code_bits rm.n encChipID) ≡ some (code_bits 16 m)
    → m < 2 ^ 16
    → decode_chip_id rm encChipID ≡ ok m
unfolding decode_chip_id decoded
decode_chip_id-message rm encChipID m ready within message fits =
    rw (ready, le→ltb_false _ _ within, message, binary-code_bits 16 m 0) (ap ok (omega arith))

raw_word : (id : ℕ) (o : Outcome ℕ) → chip_id_word true id o ≡ id
unfolding chip_id_word
raw_word id (ok m) = refl
raw_word id (throw e t) = refl
raw_word id blocked = refl
raw_word id exited = refl
raw_word id fault = refl
raw_word id spinning = refl

undecoded_word :
    (rawID : Bool) (id : ℕ) (o : Outcome ℕ) → ((m : ℕ) → o ≢ ok m) → chip_id_word rawID id o ≡ id
unfolding chip_id_word
undecoded_word rawID id (ok m) bad = absurd (bad m refl)
undecoded_word rawID id (throw e t) bad = refl
undecoded_word rawID id blocked bad = refl
undecoded_word rawID id exited bad = refl
undecoded_word rawID id fault bad = refl
undecoded_word rawID id spinning bad = refl

module _ {S : Type 0} (card : Card S) (rm : ReedMuller) (ohN notmask : ℕ) (rawID : Bool)
    (ids : ℕ → ℕ) (h : S)
    (reads : (i : ℕ)
      → i < 24
      → (r : List Reply)
      → read_reg card (vfat_reg ohN i "HW_CHIP_ID") (idle h r) ≡ (ok (ids i), idle h r)) where
  abbrev word_at : ℕ → ℕ
  word_at i =
      if bit i notmask == 1 then chip_id_word rawID (ids i) (decode_chip_id rm (ids i)) else dead

  abbrev answer : ℕ → Reply
  answer i = set_word (vfat_reg ohN i "HW_CHIP_ID") (word_at i)

  report_chip_id-eq :
      (i : ℕ) (r : List Reply)
      → i < 24
      → report_chip_id card rm ohN rawID notmask i (idle h r) ≡ (ok tt, idle h (answer i ∷ r))
  unfolding report_chip_id
  report_chip_id-eq i r lt = elim (Bool-cases (bit i notmask == 1)) [
    | inl there ↦ rw (there, reads i lt r) refl
    | inr masked ↦ rw masked refl
  ]

  report_chip_ids-replies :
      (left i : ℕ) (r : List Reply)
      → i + left ≤ 24
      → report_chip_ids card rm ohN rawID notmask i left (idle h r)
        ≡ (ok tt, idle h (onto (tabulate i left answer) r))
  unfolding report_chip_ids
  report_chip_ids-replies zero i r le = refl
  report_chip_ids-replies (suc left) i r le =
      rw (report_chip_id-eq i r (omega arith))
        (report_chip_ids-replies left (i + 1) (answer i ∷ r) (omega arith))

  -- If the registers with the chip identifiers read the numbers ids, whatever the decoder does,
  -- the loop of getVFAT3ChipIDsLocal returns and replies with one word for each of the 24 VFATs,
  -- in order: 0xdeaddead for one that is not selected; for a selected one the number of the
  -- register if that was asked for or cannot be decoded, and the decoded number if it can and the
  -- raw one was not asked for.
  pub report_chip_ids-eq :
      (r : List Reply)
      → (word : ℕ → ℕ) × (report_chip_ids card rm ohN rawID notmask 0 24 (idle h r) ≡ (
        ok tt,
        idle h (onto (tabulate 0 24 (λ i. set_word (vfat_reg ohN i "HW_CHIP_ID") (word i))) r),
      ))
        × ((i : ℕ) → bit i notmask ≡ 0 → word i ≡ dead)
        × ((i : ℕ) → bit i notmask ≡ 1 → rawID ≡ true → word i ≡ ids i)
        × ((i m : ℕ)
            → bit i notmask ≡ 1
            → rawID ≡ false
            → decode_chip_id rm (ids i) ≡ ok m
            → word i ≡ m)
        × ((i : ℕ)
            → bit i notmask ≡ 1
            → ((m : ℕ) → decode_chip_id rm (ids i) ≢ ok m)
            → word i ≡ ids i)
  unfolding chip_id_word
  report_chip_ids-eq r = (
    word_at,
    report_chip_ids-replies 24 0 r (omega arith),
    λ i off. rw off refl,
    λ i on raw. rw (on, raw) (raw_word (ids i) (decode_chip_id rm (ids i))),
    λ i m on raw good. rw (on, raw, good) refl,
    λ i on bad. rw on (undecoded_word rawID (ids i) (decode_chip_id rm (ids i)) bad),
  )
