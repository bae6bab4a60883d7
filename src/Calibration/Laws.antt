-- ===== src/Calibration/Laws.antt =====
-- src/calibration_routines.cpp: what the masking of all channels but one does to their registers.
use ctp7_modules.Prelude.{
  ℕ, zero, suc, ◌+◌, ◌%◌, ◌^◌, ◌<◌, ◌≤◌, String, List, [], ◌∷◌, true, Option, none, some, ◌==◌,
  if◌then◌else◌, ◌≡◌, ◌≢◌, refl, sym, ◌∙◌, ap, arith, ne→==_false, eq→==, Bool-cases, inl, inr,
  ==_iff, ◌⊎◌,
}
use ctp7_modules.Effect.{Card, World, Reply, ok, idle, continue, ok-injective}
use ctp7_modules.AddressTable.{Node, serialize}
use ctp7_modules.AddressTable.RoundTrip.{IsEntry, split-serialize, hex_field_address}
use ctp7_modules.Register.{get_address}
use ctp7_modules.Register.Mask.{full_mask, apply_mask}
use ctp7_modules.Register.Access.{contains_byte}
use ctp7_modules.Register.Ram.{Ram}
use ctp7_modules.Register.RoundTrip.{read_reg-idle, write_raw_address-idle}
use ctp7_modules.Calibration.{
  channel_field, drop_entry, put_entry, mask_channels, set_single_chan_mask, apply_chan_mask,
}

-- The masks of the channels of one VFAT are fields of registers at addresses of their own.
pub record Channels {S : Type 0} (card : Card S) (ohN vfatN : ℕ) (node : ℕ → Node) : Type 0 where
  pub entry : (c : ℕ) → c < 128 → IsEntry (node c)
  pub found :
      (c : ℕ) → c < 128 → card.dbi (channel_field ohN vfatN c "MASK") ≡ some (serialize (node c))
  pub readable : (c : ℕ) → c < 128 → contains_byte b'r' (node c).permission ≡ true
  pub apart : (c d : ℕ) → c < 128 → d < 128 → c ≢ d → (node c).real_address ≢ (node d).real_address

-- What the entries give for an address: the last one of it.
unfoldable pub entry_of : ℕ → List (ℕ × ℕ) → Option ℕ
entry_of a [] = none
entry_of a (p ∷ ps) = elim (entry_of a ps) [
  | some v ↦ some v
  | none ↦ if p.0 == a then some p.1 else none
]

abbrev or_else : Option ℕ → ℕ → ℕ
or_else none v = v
or_else (some u) v = u

entry_of-drop_entry :
    (a b : ℕ) (m : List (ℕ × ℕ))
    → entry_of a (drop_entry b m) ≡ (if b == a then none else entry_of a m)
unfolding entry_of drop_entry
entry_of-drop_entry a b [] = ground arith
entry_of-drop_entry a b (p ∷ ps) = ground (arith, entry_of-drop_entry a b ps)

entry_of-put_entry :
    (a b v : ℕ) (m : List (ℕ × ℕ))
    → entry_of a (put_entry b v m) ≡ (if b == a then some v else entry_of a m)
unfolding entry_of put_entry
entry_of-put_entry a b v m = ground (arith, entry_of-drop_entry a b m)

here_or_later : (chan c : ℕ) → chan ≤ c → (chan ≡ c) ⊎ (chan + 1 ≤ c)
here_or_later chan c le = elim (Bool-cases (chan == c)) [
  | inl same ↦ inl ((==_iff chan c).0 same)
  | inr other ↦ inr (ground arith)
]

module _ {S : Type 0} (card : Card S) (ram : Ram card) (ohN vfatN : ℕ) (node : ℕ → Node)
    (channels : Channels card ohN vfatN node) where
  open ram use {peek, poke, peek-poke}
  open channels use {entry, found, readable, apart}

  abbrev addr : ℕ → ℕ
  addr c = (node c).real_address

  abbrev name : ℕ → String
  name c = channel_field ohN vfatN c "MASK"

  -- The mask of a channel, as `readReg` gives it.
  abbrev masked_as : ℕ → ℕ → ℕ
  masked_as c x =
      if (node c).mask == full_mask then x % 2 ^ 32 else apply_mask (x % 2 ^ 32) (node c).mask

  abbrev mask_at : S → ℕ → ℕ
  mask_at h c = masked_as c (peek h (addr c))

  get_address-idle :
      (c : ℕ) → c < 128 → (w : World S) → get_address card (name c) w ≡ (ok (addr c), w)
  unfolding get_address
  get_address-idle c lt w =
      rw
        (
          found c lt,
          get_address,
          split-serialize (node c) (entry c lt),
          hex_field_address (node c) (entry c lt) w,
        )
        refl

  -- The channels from `chan` on: their words, the rest of the board, and the map.
  pub mask_channels-words :
      (ch left chan : ℕ) (m : List (ℕ × ℕ)) (h : S) (r : List Reply)
      → chan + left ≤ 128
      → (m' : List (ℕ × ℕ)) × (h' : S) × (mask_channels card ohN vfatN ch chan left m (idle h r)
          ≡ (ok m', idle h' r))
        × ((c : ℕ) → chan ≤ c → c < chan + left → peek h' (addr c) ≡ (if ch == c then 0 else 1))
        × ((a : ℕ) → ((c : ℕ) → chan ≤ c → c < chan + left → addr c ≢ a) → peek h' a ≡ peek h a)
        × ((c : ℕ) → chan ≤ c → c < chan + left → entry_of (addr c) m' ≡ some (mask_at h c))
        × ((a : ℕ)
            → ((c : ℕ) → chan ≤ c → c < chan + left → addr c ≢ a)
            → entry_of a m' ≡ entry_of a m)
  unfolding mask_channels
  mask_channels-words ch zero chan m h r le = (
    m,
    h,
    refl,
    λ c lo hi. absurd (omega arith),
    λ a other. refl,
    λ c lo hi. absurd (omega arith),
    λ a other. refl,
  )
  mask_channels-words ch (suc left) chan m h r le =
      let v : ℕ = if ch == chan then 0 else 1 in
      let h1 : S = poke h (addr chan) v in
      let (m', h', run, inside, outside, kept, others) =
        mask_channels-words ch left (chan + 1) (put_entry (addr chan) (mask_at h chan) m) h1 r
          (omega arith) in
      let lt : chan < 128 = omega arith in
      let away = λ (c : ℕ) (lo : chan + 1 ≤ c) (hi : c < chan + 1 + left).
        apart c chan (omega arith) lt (omega arith) in
      let same_peek : (c : ℕ)
          → chan + 1 ≤ c
          → c < chan + 1 + left
          → peek h1 (addr c) ≡ peek h (addr c) =
        λ c lo hi. ground (arith, peek-poke h (addr chan) v (addr c), away c lo hi) in
      (
        m',
        h',
        rw
            (
              get_address-idle chan lt (idle h r),
              read_reg-idle card ram (node chan) (entry chan lt) (name chan) (found chan lt) h r
                  (readable chan lt),
              write_raw_address-idle card ram (addr chan) v h r,
              continue,
            )
            run,
        λ c lo hi. elim (here_or_later chan c lo) [
          | inl here ↦
              rw (sym here)
                (outside (addr chan) away ∙ ground (arith, peek-poke h (addr chan) v (addr chan)))
          | inr later ↦ inside c later (omega arith)
        ],
        λ a other.
            outside a (λ c lo hi. other c (omega arith) (omega arith))
            ∙ ground (arith, peek-poke h (addr chan) v a, other chan (omega arith) (omega arith)),
        λ c lo hi. elim (here_or_later chan c lo) [
          | inl here ↦ rw (sym here) (
              others (addr chan) away
              ∙ entry_of-put_entry (addr chan) (addr chan) (mask_at h chan) m
              ∙ rw (eq→== (addr chan) (addr chan) refl) refl)
          | inr later ↦
              kept c later (omega arith)
              ∙ ap (λ x. some (masked_as c x)) (same_peek c later (omega arith))
        ],
        λ a other.
            others a (λ c lo hi. other c (omega arith) (omega arith))
            ∙ entry_of-put_entry a (addr chan) (mask_at h chan) m
            ∙ rw (ne→==_false (addr chan) a (other chan (omega arith) (omega arith))) refl,
      )

  -- The entries written back one by one: the last one of an address counts.
  apply_chan_mask-words :
      (l : List (ℕ × ℕ)) (h : S) (r : List Reply)
      → (h' : S) × (apply_chan_mask card l (idle h r) ≡ (ok tt, idle h' r))
        × ((a : ℕ) → peek h' a ≡ or_else (entry_of a l) (peek h a))
  unfolding apply_chan_mask entry_of
  apply_chan_mask-words [] h r = (h, refl, λ a. refl)
  apply_chan_mask-words (p ∷ ps) h r =
      let (h', run, words) = apply_chan_mask-words ps (poke h p.0 p.1) r in
      (
        h',
        rw (write_raw_address-idle card ram p.0 p.1 h r, continue) run,
        λ a. ground (arith, words a, peek-poke h p.0 p.1 a),
      )

  -- On a board whose address space behaves like memory, with a readable register MASK for each
  -- channel of the VFAT at an address of its own, if setSingleChanMask has returned a map, each of
  -- these registers holds the whole word 0 for the channel and 1 for the others; and
  -- applyChanMask, in whatever order it goes through the map, then leaves in each one what readReg
  -- gave for it before, as a whole word, and all other addresses as they were.
  pub set_single_chan_mask-apply :
      (ch : ℕ) (h h' : S) (r : List Reply) (m l : List (ℕ × ℕ))
      → set_single_chan_mask card ohN vfatN ch (idle h r) ≡ (ok m, idle h' r)
      → ((a : ℕ) → entry_of a l ≡ entry_of a m)
      → ((c : ℕ) → c < 128 → peek h' (addr c) ≡ (if ch == c then 0 else 1))
        × (h'' : S) × (apply_chan_mask card l (idle h' r) ≡ (ok tt, idle h'' r))
        × ((c : ℕ) → c < 128 → peek h'' (addr c) ≡ mask_at h c)
        × ((a : ℕ) → ((c : ℕ) → c < 128 → addr c ≢ a) → peek h'' a ≡ peek h a)
  unfolding set_single_chan_mask entry_of
  set_single_chan_mask-apply ch h h' r m l run same =
      let (m1, h1, run1, inside, outside, kept, others) =
        mask_channels-words ch 128 0 [] h r (omega arith) in
      let both : (ok m1, idle h1 r) ≡ (ok m, idle h' r) = sym run1 ∙ run in
      let m_same : m1 ≡ m = ok-injective (ap (λ x. x.0) both) in
      let h_same : h1 ≡ h' = ap (λ x. x.1.hw) both in
      let (h'', back, words) = apply_chan_mask-words l h' r in
      (
        λ c lt. rw (sym h_same) (inside c (omega arith) (omega arith)),
        h'',
        back,
        λ c lt.
            words (addr c)
            ∙ ap (λ o. or_else o (peek h' (addr c)))
                (same (addr c)
                  ∙ ap (entry_of (addr c)) (sym m_same)
                  ∙ kept c (omega arith) (omega arith)),
        λ a other.
            words a
            ∙ ap (λ o. or_else o (peek h' a))
                (same a
                  ∙ ap (entry_of a) (sym m_same)
                  ∙ others a (λ c lo hi. other c (omega arith)))
            ∙ rw (sym h_same) (outside a (λ c lo hi. other c (omega arith))),
      )
