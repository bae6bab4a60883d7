-- ===== src/Register/RoundTrip.antt =====
-- `writeReg` and then `readReg`, on a board whose address space behaves like memory.
use native.Mathlib.Nat.{add-zero}
use ctp7_modules.Prelude.{
  ℕ, suc, zero, ◌+◌, ◌%◌, ◌^◌, ◌<◌, ◌≤◌, String, List, [], ◌∷◌, true, some, ◌==◌, if◌then◌else◌,
  ◌≡◌, ◌≢◌, refl, arith, ◌∙◌, ne→==_false,
}
use ctp7_modules.Effect.{Card, idle, Reply, ok, ◌>>◌}
use ctp7_modules.Memhub.{memhub_read, memhub_read-idle, memhub_write-idle}
use ctp7_modules.AddressTable.{Node, serialize}
use ctp7_modules.AddressTable.RoundTrip.{IsEntry}
use ctp7_modules.Register.Mask.{dead, full_mask, merge, apply_mask}
use ctp7_modules.Register.Mask.Laws.{field_mask, apply_mask-merge, bit-merge, merge-lt}
use ctp7_modules.Prelude.Bits.{bit}
use ctp7_modules.Register.Ram.{Ram}
use ctp7_modules.Register.Access.{
  contains_byte, write_raw_address, read_tries, masked_word, read_reg, write_reg, write_masked,
}
use ctp7_modules.Register.Entry.{
  write_address_entry, read_address_entry, read_reg_entry, write_reg_plain, write_reg_masked,
}

module _ {S : Type 0} (card : Card S) (ram : Ram card) where
  open ram use {peek, poke, read_words, write_word, peek-poke}

  read_word-idle :
      (a : ℕ) (h : S) (r : List Reply)
      → memhub_read card a 1 (idle h r) ≡ (ok (some (λ i. peek h (a + i))), idle h r)
  read_word-idle a h r = rw (memhub_read-idle card a 1 h r, read_words h a 1)

  pub write_raw_address-idle :
      (a v : ℕ) (h : S) (r : List Reply)
      → write_raw_address card a v (idle h r) ≡ (ok tt, idle (poke h a v) r)
  unfolding write_raw_address
  write_raw_address-idle a v h r = rw (memhub_write-idle card a (v ∷ []) h r, write_word h a v)

  read_tries-idle :
      (left a : ℕ) (h : S) (r : List Reply)
      → read_tries card left a (idle h r) ≡ (ok (peek h a % 2 ^ 32), idle h r)
  unfolding read_tries
  read_tries-idle zero a h r = rw (read_word-idle a h r, add-zero a)
  read_tries-idle (suc left) a h r = rw (read_word-idle a h r, add-zero a)

  module _ (n : Node) (e : IsEntry n) (name : String)
      (found : card.dbi name ≡ some (serialize n)) where
    pub read_reg-idle :
        (h : S) (r : List Reply)
        → contains_byte b'r' n.permission ≡ true
        → read_reg card name (idle h r) ≡ (
          ok (
              if n.mask == full_mask
              then peek h n.real_address % 2 ^ 32
              else apply_mask (peek h n.real_address % 2 ^ 32) n.mask),
          idle h r,
        )
    unfolding masked_word
    read_reg-idle h r readable =
        read_reg_entry card n e name (idle h r) found readable
        ∙ rw (read_word-idle n.real_address h r, add-zero n.real_address)

    -- The same two for a register without a mask.
    pub read_reg-idle_plain :
        (h : S) (r : List Reply)
        → contains_byte b'r' n.permission ≡ true
        → (n.mask == full_mask) ≡ true
        → read_reg card name (idle h r) ≡ (ok (peek h n.real_address % 2 ^ 32), idle h r)
    read_reg-idle_plain h r readable full = read_reg-idle h r readable ∙ rw full refl

    pub write_reg-idle_plain :
        (v : ℕ) (h : S) (r : List Reply)
        → (n.mask == full_mask) ≡ true
        → write_reg card name v (idle h r) ≡ (ok tt, idle (poke h n.real_address v) r)
    write_reg-idle_plain v h r full =
        write_reg_plain card n e name v (idle h r) found full
        ∙ write_raw_address-idle n.real_address v h r

    pub write_reg-idle :
        (v : ℕ) (h : S) (r : List Reply)
        → n.mask ≢ full_mask
        → peek h n.real_address % 2 ^ 32 ≢ dead
        → write_reg card name v (idle h r) ≡ (
          ok tt,
          idle (poke h n.real_address (merge n.mask v (peek h n.real_address % 2 ^ 32))) r,
        )
    unfolding write_masked
    write_reg-idle v h r partial alive =
        write_reg_masked card n e name v (idle h r) found (ground arith)
        ∙ rw
            (
              read_address_entry card n e (idle h r),
              read_tries-idle 9 n.real_address h r,
              ne→==_false _ _ alive,
            )
            (write_address_entry card n e _ (idle h r)
              ∙ write_raw_address-idle n.real_address _ h r)

    -- On a board whose address space behaves like memory, writeReg of a value that fits the masked
    -- field of a readable register, followed by readReg, gives the value back; each bit of the
    -- word outside the mask is as before, and so is the word at each other address, provided the
    -- word is not the sentinel 0xdeaddead.
    pub read_reg-write_reg :
        (k s v : ℕ) (h : S) (r : List Reply)
        → n.mask ≡ field_mask k s
        → 0 < k
        → s ≤ 32
        → v < 2 ^ k
        → contains_byte b'r' n.permission ≡ true
        → n.mask ≢ full_mask
        → peek h n.real_address % 2 ^ 32 ≢ dead
        → (h' : S) × ((write_reg card name v >> read_reg card name) (idle h r) ≡ (ok v, idle h' r))
          × ((i : ℕ)
              → i < 32
              → bit i n.mask ≡ 0
              → bit i (peek h' n.real_address) ≡ bit i (peek h n.real_address % 2 ^ 32))
          × ((b : ℕ) → n.real_address ≢ b → peek h' b ≡ peek h b)
    read_reg-write_reg k s v h r field pos le small readable partial alive =
        let current = peek h n.real_address % 2 ^ 32 in
        let h' = poke h n.real_address (merge n.mask v current) in
        let after : peek h' n.real_address % 2 ^ 32 ≡ merge n.mask v current = ground (
          arith,
          peek-poke h n.real_address (merge n.mask v current) n.real_address,
          merge-lt n.mask v current e.mask_fits,
        ) in
        let got : apply_mask (merge n.mask v current) n.mask ≡ v =
          rw field
            (apply_mask-merge k s v current pos le (omega (arith, field, e.mask_fits)) small) in
        (
          h',
          rw (write_reg-idle v h r partial alive)
              (read_reg-idle h' r readable ∙ rw (ne→==_false _ _ partial, after, got) refl),
          λ i lt outside. ground (
            arith,
            peek-poke h n.real_address (merge n.mask v current) n.real_address,
            bit-merge i n.mask v current lt e.mask_fits,
          ),
          λ b other. ground (arith, peek-poke h n.real_address (merge n.mask v current) b),
        )
