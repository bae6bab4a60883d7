-- ===== src/Register/Block.antt =====
-- `readBlock` and `writeBlock` by register name: several words in one transaction.
pub mod Laws
use Prim.Native.String.{String}
use ctp7_modules.Prelude.{
  ℕ, ◌+◌, ◌%◌, ◌^◌, List, [], ◌∷◌, ◌&&◌, ◌||◌, Bool, true, false, not, Option, none, some, ltb,
  ◌==◌, if◌then◌else◌, take, tabulate,
}
use ctp7_modules.Effect.{
  Bytes, Card, M, text, fmt, memsvc_error, set_string, pure, ◌>>=◌, ◌>>◌, respond, set_error,
}
use ctp7_modules.Memhub.{memhub_read, memhub_write}
use ctp7_modules.AddressTable.{split, table_field, hex_field}
use ctp7_modules.Register.Mask.{full_mask}

-- `rmode.rfind("single") != npos`.
is_prefix : Bytes → Bytes → Bool
is_prefix [] s = true
is_prefix (p ∷ ps) [] = false
is_prefix (p ∷ ps) (c ∷ s) = p == c && is_prefix ps s

occurs : Bytes → Bytes → Bool
unfolding is_prefix
occurs p [] = is_prefix p []
occurs p (c ∷ s) = is_prefix p (c ∷ s) || occurs p s

abbrev single : Bytes
single = b's' ∷ b'i' ∷ b'n' ∷ b'g' ∷ b'l' ∷ b'e' ∷ []

unfoldable pub is_single : Bytes → Bool
unfolding occurs
is_single rmode = occurs single rmode

-- The properties of the register that the block functions look at.
pub record Target : Type 0 where
  pub raddr : ℕ
  pub rmask : ℕ
  pub rsize : ℕ
  pub rmode : Bytes

-- What the chain of tests comes to; `offset + size` is a sum of two `uint32_t`.
pub data Verdict : Type 0 where
  masked single_long beyond granted : Verdict

unfoldable pub check_block : Target → ℕ → ℕ → Verdict
check_block t size offset =
    if not (t.rmask == full_mask)
    then Verdict.masked
    else if is_single t.rmode && ltb 1 size
    then Verdict.single_long
    else if ltb t.rsize ((offset + size) % 2 ^ 32)
    then Verdict.beyond
    else Verdict.granted

module _ {S : Type 0} (card : Card S) where
  unfoldable pub target_of : Bytes → M S Target
  target_of v = do
    let tmp = split v b'|'
    raddr ← hex_field tmp 0
    rmask ← hex_field tmp 2
    rsize ← hex_field tmp 4
    rperm ← table_field tmp 1
    rmode ← table_field tmp 3
    pure (record { raddr = raddr; rmask = rmask; rsize = rsize; rmode = rmode })

  -- The buffer `result` after the call: `none` if it was not written.
  abbrev filled : ℕ → Option (ℕ → ℕ) → M S (Option (List ℕ))
  filled size none = do set_error (memsvc_error "Read memsvc error: "); pure none
  filled size (some buf) = do
    respond (set_string "debug" (text "Block read succeeded."))
    pure (some (tabulate 0 size (λ i. buf i % 2 ^ 32)))

  unfoldable pub read_granted : Verdict → Target → ℕ → ℕ → M S (Option (List ℕ))
  read_granted Verdict.masked t size offset = do
    set_error (text "Block read attempted on masked register")
    pure none
  read_granted Verdict.single_long t size offset = do
    set_error (text "Block read attempted on single register with size greater than 1")
    pure none
  read_granted Verdict.beyond t size offset = do
    set_error (
        fmt "Block read attempted would go beyond the size of the RAM"
          (t.raddr ∷ offset ∷ size ∷ t.rsize ∷ []))
    pure none
  read_granted Verdict.granted t size offset = do
    filled size (← memhub_read card ((t.raddr + offset) % 2 ^ 32) size)

  -- The returned count, and the buffer. The count is `size` whatever went wrong.
  unfoldable pub read_block : String → ℕ → ℕ → M S (ℕ × Option (List ℕ))
  read_block name size offset = elim (card.dbi name) [
    | some v ↦ (do
      t ← target_of v
      buf ← read_granted (check_block t size offset) t size offset
      pure (size, buf))
    | none ↦ pure (0, none)
  ]

  abbrev pub written : Bool → M S (Unit {0})
  written true = respond (set_string "debug" (text "Block write succeeded."))
  written false = set_error (memsvc_error "Write memsvc error: ")

  unfoldable pub write_granted : Verdict → Target → List ℕ → ℕ → ℕ → M S (Unit {0})
  write_granted Verdict.masked t values size offset =
      set_error (text "Block write attempted on masked register")
  write_granted Verdict.single_long t values size offset =
      set_error (text "Block write attempted on single register with size greater than 1")
  write_granted Verdict.beyond t values size offset = set_error (
      fmt "Block write attempted would go beyond the size of the RAM"
        (t.raddr ∷ offset ∷ size ∷ t.rsize ∷ []))
  write_granted Verdict.granted t values size offset = do
    written (← memhub_write card ((t.raddr + offset) % 2 ^ 32) (take size values))

  unfoldable pub write_block : String → List ℕ → ℕ → ℕ → M S (Unit {0})
  write_block name values size offset = elim (card.dbi name) [
    | some v ↦ (do t ← target_of v; write_granted (check_block t size offset) t values size offset)
    | none ↦ pure tt
  ]
