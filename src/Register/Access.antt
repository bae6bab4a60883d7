-- ===== src/Register/Access.antt =====
-- Single registers by name and by address.
use ctp7_modules.Prelude.{
  ℕ, zero, suc, ◌%◌, ◌^◌, String, List, [], ◌∷◌, ◌||◌, Bool, false, Option, none, some, ◌==◌,
  if◌then◌else◌,
}
use ctp7_modules.Effect.{
  Bytes, Card, M, text, naming, memsvc_error, set_bytes, set_word, Request, pure, ◌>>=◌, ◌>>◌,
  respond, set_error,
}
use ctp7_modules.Memhub.{memhub_read, memhub_write}
use ctp7_modules.AddressTable.{split, table_field, hex_field}
use ctp7_modules.Register.Mask.{dead, full_mask, apply_mask, merge}

-- `find_first_of` of one byte.
unfoldable pub contains_byte : ℕ → Bytes → Bool
contains_byte c [] = false
contains_byte c (x ∷ xs) = x == c || contains_byte c xs

-- The reading of `readReg`: unlike `readAddress` it makes one try, and sets no error.
unfoldable pub masked_word : {S : Type 0} → ℕ → Option (ℕ → ℕ) → M S ℕ
masked_word rmask none = pure dead
masked_word rmask (some buf) =
    pure (if rmask == full_mask then buf 0 % 2 ^ 32 else apply_mask (buf 0 % 2 ^ 32) rmask)

module _ {S : Type 0} (card : Card S) where
  abbrev not_found : {A : Type 0} → A → M S A
  not_found a = do set_error (text "Register not found"); pure a

  unfoldable pub get_mask : String → M S ℕ
  get_mask name = elim (card.dbi name) [ some v ↦ hex_field (split v b'|') 2 | none ↦ not_found 0 ]

  unfoldable pub get_address : String → M S ℕ
  get_address name = elim (card.dbi name) [
    | some v ↦ hex_field (split v b'|') 0
    | none ↦ not_found dead
  ]

  abbrev memsvc_failed : {A : Type 0} → A → M S A
  memsvc_failed a = do set_error (memsvc_error "memsvc error: "); pure a

  unfoldable pub write_raw_address : ℕ → ℕ → M S (Unit {0})
  write_raw_address address value = do
    done ← memhub_write card address (value ∷ [])
    if done then pure tt else memsvc_failed tt

  abbrev pub word_or_dead : Option (ℕ → ℕ) → M S ℕ
  word_or_dead none = memsvc_failed dead
  word_or_dead (some buf) = pure (buf 0 % 2 ^ 32)

  unfoldable pub read_raw_address : ℕ → M S ℕ
  read_raw_address address = do word_or_dead (← memhub_read card address 1)

  -- The register is given by its table entry, `db_res`.
  unfoldable pub write_address : Bytes → ℕ → M S (Unit {0})
  write_address db_res value = do
    raddr ← hex_field (split db_res b'|') 0
    write_raw_address raddr value

  -- The `while (true)` of `readAddress`; `left` counts `n_current_tries` from 9 down.
  unfoldable pub read_tries : ℕ → ℕ → M S ℕ
  read_tries zero raddr = do word_or_dead (← memhub_read card raddr 1)
  read_tries (suc left) raddr =
      memhub_read card raddr 1
      >>= (λ ret. elim ret [ none ↦ read_tries left raddr | some buf ↦ pure (buf 0 % 2 ^ 32) ])

  unfoldable pub read_address : Bytes → M S ℕ
  read_address db_res = do raddr ← hex_field (split db_res b'|') 0; read_tries 9 raddr

  unfoldable pub write_raw_reg : String → ℕ → M S (Unit {0})
  write_raw_reg name value = elim (card.dbi name) [
    | some v ↦ write_address v value
    | none ↦ not_found tt
  ]

  unfoldable pub read_raw_reg : String → M S ℕ
  read_raw_reg name = elim (card.dbi name) [ some v ↦ read_address v | none ↦ not_found dead ]

  unfoldable pub read_entry : List Bytes → M S ℕ
  read_entry tmp = do
    rperm ← table_field tmp 1
    if contains_byte b'r' rperm
        then (do
          raddr ← hex_field tmp 0
          rmask ← hex_field tmp 2
          masked_word rmask (← memhub_read card raddr 1))
        else pure dead

  unfoldable pub read_reg : String → M S ℕ
  read_reg name = elim (card.dbi name) [ some v ↦ read_entry (split v b'|') | none ↦ pure dead ]

  -- The branch of `writeReg` for a register with a mask: read, modify, write.
  unfoldable pub write_masked : String → Bytes → ℕ → ℕ → M S (Unit {0})
  write_masked name v rmask value = do
    current ← read_address v
    if current == dead
        then set_error (naming "Writing masked register failed due to problem reading: %s" name)
        else write_address v (merge rmask value current)

  unfoldable pub write_reg : String → ℕ → M S (Unit {0})
  write_reg name value = elim (card.dbi name) [
    | some v ↦ (do
      rmask ← hex_field (split v b'|') 2
      if rmask == full_mask then write_address v value else write_masked name v rmask value)
    | none ↦ set_error (naming "Register %s key not found" name)
  ]

  -- The handler `readRegFromDB`.
  unfoldable pub read_reg_from_db : Request → M S (Unit {0})
  read_reg_from_db request = elim (card.dbi (request.string "reg_name")) [
    | some v ↦ (do
      let tmp = split v b'|'
      raddr ← hex_field tmp 0
      rmask ← hex_field tmp 2
      rsize ← hex_field tmp 4
      rperm ← table_field tmp 1
      rmode ← table_field tmp 3
      respond (set_bytes "permissions" rperm)
      respond (set_bytes "mode" rmode)
      respond (set_word "address" raddr)
      respond (set_word "mask" rmask)
      respond (set_word "size" rsize))
    | none ↦ not_found tt
  ]
