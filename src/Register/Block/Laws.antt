-- ===== src/Register/Block/Laws.antt =====
-- The guard and the transactions of `readBlock` and `writeBlock` in src/utils.cpp.
use ctp7_modules.Prelude.{
  ℕ, ◌+◌, ◌%◌, ◌^◌, ◌<◌, ◌≤◌, String, List, ◌∷◌, Bool, true, false, if◌then◌else◌, none, some, ◌≡◌,
  ◌≢◌, ◌⊎◌, ◌↔◌, refl, arith, tabulate, take, ◌∙◌,
}
use ctp7_modules.Effect.{
  Card, idle, Reply, ok, World, pure, ◌>>=◌, Message, text, set_string, memsvc_error,
}
use ctp7_modules.Memhub.{memhub_read-idle, memhub_write-idle}
use ctp7_modules.AddressTable.{Node, serialize, table_field}
use ctp7_modules.AddressTable.RoundTrip.{
  IsEntry, split-serialize, hex_field_address, hex_field_mask, hex_field_size,
}
use ctp7_modules.Register.Mask.{full_mask}
use ctp7_modules.Register.Ram.{Ram}
use ctp7_modules.Register.Block.{
  Target, Verdict, check_block, is_single, read_granted, write_granted, target_of, read_block,
  write_block, written,
}

-- The guard says yes exactly when the register has no mask, a single register is accessed by at most
-- one word, and the 32-bit sum of offset and size is within the register.
pub check_block_iff :
    (t : Target) (size offset : ℕ)
    → (check_block t size offset ≡ Verdict.granted) ↔ (
        (t.rmask ≡ full_mask)
        × ((is_single t.rmode ≡ false) ⊎ (size ≤ 1))
        × ((offset + size) % 2 ^ 32 ≤ t.rsize))
unfolding check_block
check_block_iff t size offset = (ground arith, ground arith)

-- If the sum of offset and size does not overflow, a granted block access stays within the
-- register, which has no mask.
pub granted_in_range :
    (t : Target) (size offset i : ℕ)
    → offset + size < 2 ^ 32
    → check_block t size offset ≡ Verdict.granted
    → i < size
    → (offset + i < t.rsize) × (t.rmask ≡ full_mask)
unfolding check_block
granted_in_range t size offset i fits yes_ lt = ground arith

-- An offset and a size whose sum wraps around in 32 bits, and is then within the register, are
-- granted on any register without a mask that is not single.
pub granted_on_overflow :
    (t : Target) (size offset : ℕ)
    → t.rmask ≡ full_mask
    → is_single t.rmode ≡ false
    → size < 2 ^ 32
    → offset < 2 ^ 32
    → 2 ^ 32 ≤ offset + size
    → offset + size ≤ 2 ^ 32 + t.rsize
    → check_block t size offset ≡ Verdict.granted
unfolding check_block
granted_on_overflow t size offset full multi hs ho over le = ground arith

-- On a stored register.
abbrev pub target : Node → Target
target n = record { raddr = n.real_address; rmask = n.mask; rsize = n.size; rmode = n.mode }

module _ {S : Type 0} (card : Card S) where
  read_granted_refused :
      (c : Verdict) (t : Target) (size offset : ℕ) (h : S) (r : List Reply)
      → c ≢ Verdict.granted
      → (m : Message) × (read_granted card c t size offset (idle h r)
          ≡ (ok none, idle h (set_string "error" m ∷ r)))
  unfolding read_granted
  read_granted_refused Verdict.masked t size offset h r ne = (_, refl)
  read_granted_refused Verdict.single_long t size offset h r ne = (_, refl)
  read_granted_refused Verdict.beyond t size offset h r ne = (_, refl)
  read_granted_refused Verdict.granted t size offset h r ne = absurd (ne refl)

module _ {S : Type 0} (card : Card S) (n : Node) (e : IsEntry n) (name : String)
    (found : card.dbi name ≡ some (serialize n)) where
  target_of_entry : (w : World S) → target_of card (serialize n) w ≡ (ok (target n), w)
  unfolding target_of table_field
  target_of_entry w =
      rw (split-serialize n e, hex_field_address n e w, hex_field_mask n e w, hex_field_size n e w)

  read_block_entry :
      (size offset : ℕ) (w : World S)
      → read_block card name size offset w
        ≡ (do
          buf ← read_granted card (check_block (target n) size offset) (target n) size offset
          pure (size, buf))
            w
  unfolding read_block
  read_block_entry size offset w = rw (found, read_block, target_of_entry w) refl

  -- A block read that the guard refuses leaves the hardware and the buffer alone and reports one
  -- error, and still returns the number of words that were asked for.
  pub read_block_refused :
      (size offset : ℕ) (h : S) (r : List Reply)
      → check_block (target n) size offset ≢ Verdict.granted
      → (m : Message) × (read_block card name size offset (idle h r)
          ≡ (ok (size, none), idle h (set_string "error" m ∷ r)))
  read_block_refused size offset h r refused =
      let (m, step) =
        read_granted_refused card (check_block (target n) size offset) (target n) size offset h r
          refused in
      (m, read_block_entry size offset (idle h r) ∙ rw step refl)

  -- On a board whose address space behaves like memory, a granted block read returns the words
  -- from address + offset on.
  pub read_block_granted :
      (ram : Ram card) (size offset : ℕ) (h : S) (r : List Reply)
      → check_block (target n) size offset ≡ Verdict.granted
      → read_block card name size offset (idle h r) ≡ (
        ok (
          size,
          some
              (tabulate 0 size (λ i. ram.peek h ((n.real_address + offset) % 2 ^ 32 + i) % 2 ^ 32)),
        ),
        idle h (set_string "debug" (text "Block read succeeded.") ∷ r),
      )
  unfolding read_granted
  read_block_granted ram size offset h r ok_ =
      read_block_entry size offset (idle h r)
      ∙ rw
          (
            ok_,
            read_granted,
            memhub_read-idle card ((n.real_address + offset) % 2 ^ 32) size h r,
            ram.read_words h ((n.real_address + offset) % 2 ^ 32) size,
          )
          refl

module _ {S : Type 0} (card : Card S) where
  written_lem :
      (done : Bool) (w : World S)
      → written card done w ≡ (
        ok tt,
        record w {
          reply =
              (if done
                then set_string "debug" (text "Block write succeeded.")
                else set_string "error" (memsvc_error "Write memsvc error: "))
              ∷ w.reply;
        },
      )
  written_lem true w = refl
  written_lem false w = refl

module _ {S : Type 0} (card : Card S) (n : Node) (e : IsEntry n) (name : String)
    (found : card.dbi name ≡ some (serialize n)) where
  write_block_entry :
      (values : List ℕ) (size offset : ℕ) (w : World S)
      → write_block card name values size offset w
        ≡ write_granted card (check_block (target n) size offset) (target n) values size offset w
  unfolding write_block
  write_block_entry values size offset w =
      rw (found, write_block, target_of_entry card n e name found w) refl

  -- A granted block write hands the first words to the memory service in one transaction at
  -- address + offset, and answers by its result.
  pub write_block_granted :
      (values : List ℕ) (size offset : ℕ) (h : S) (r : List Reply)
      → check_block (target n) size offset ≡ Verdict.granted
      → let (done, h') =
          card.memsvc_write h ((n.real_address + offset) % 2 ^ 32) (take size values) in
        write_block card name values size offset (idle h r) ≡ (
          ok tt,
          idle h' (
              (if done
                then set_string "debug" (text "Block write succeeded.")
                else set_string "error" (memsvc_error "Write memsvc error: "))
              ∷ r),
        )
  unfolding write_granted
  write_block_granted values size offset h r granted_ =
      write_block_entry values size offset (idle h r)
      ∙ rw
          (
            granted_,
            write_granted,
            memhub_write-idle card ((n.real_address + offset) % 2 ^ 32) (take size values) h r,
          )
          (written_lem card _ _)
