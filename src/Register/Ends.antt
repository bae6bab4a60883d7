-- ===== src/Register/Ends.antt =====
-- The functions on single registers of src/utils.cpp as steps that end.
use ctp7_modules.Prelude.{ℕ, zero, suc, String, List, Option, none, some}
use ctp7_modules.Effect.{Card, Bytes}
use ctp7_modules.Effect.Ends.{
  Ends, bind-Ends, if-Ends, option-Ends, bool-Ends, pure-Ends, respond-Ends,
}
use ctp7_modules.Memhub.Ends.{memhub_read-Ends, memhub_write-Ends}
use ctp7_modules.AddressTable.Fields.Ends.{table_field-Ends, hex_field-Ends}
use ctp7_modules.AddressTable.{split}
use ctp7_modules.Register.Mask.{dead}
use ctp7_modules.Register.Access.{
  write_raw_address, write_address, word_or_dead, read_tries, read_address, masked_word, read_entry,
  read_reg, write_masked, write_reg,
}

ruleset steps = (
  bind-Ends, if-Ends, option-Ends, bool-Ends, pure-Ends, respond-Ends, memhub_read-Ends,
  memhub_write-Ends, table_field-Ends, hex_field-Ends,
)

module _ {S : Type 0} (card : Card S) where
  write_raw_address-Ends : (a v : ℕ) → Ends (write_raw_address card a v)
  unfolding write_raw_address
  write_raw_address-Ends a v = search steps depth 8

  write_address-Ends : (e : Bytes) (v : ℕ) → Ends (write_address card e v)
  unfolding write_address
  write_address-Ends e v = search (steps, write_raw_address-Ends) depth 8

  word_or_dead-Ends : (o : Option (ℕ → ℕ)) → Ends (word_or_dead card o)
  word_or_dead-Ends none = search steps depth 8
  word_or_dead-Ends (some buf) = search steps depth 8

  read_tries-Ends : (left a : ℕ) → Ends (read_tries card left a)
  unfolding read_tries
  read_tries-Ends zero a = search (steps, word_or_dead-Ends) depth 8
  read_tries-Ends (suc left) a =
      let ih = read_tries-Ends left a in
      bind-Ends _ _ (memhub_read-Ends card a 1) (λ o. option-Ends o _ _ ih (λ buf. pure-Ends _))

  read_address-Ends : (e : Bytes) → Ends (read_address card e)
  unfolding read_address
  read_address-Ends e = search (steps, read_tries-Ends) depth 8

  masked_word-Ends : (m : ℕ) (o : Option (ℕ → ℕ)) → Ends (masked_word {S = S} m o)
  unfolding masked_word
  masked_word-Ends m none = search steps depth 8
  masked_word-Ends m (some buf) = search steps depth 8

  read_entry-Ends : (tmp : List Bytes) → Ends (read_entry card tmp)
  unfolding read_entry
  read_entry-Ends tmp = search (steps, masked_word-Ends) depth 9

  pub read_reg-Ends : (name : String) → Ends (read_reg card name)
  unfolding read_reg
  read_reg-Ends name =
      option-Ends (card.dbi name) _ _ (pure-Ends dead) (λ v. read_entry-Ends (split v b'|'))

  write_masked-Ends : (name : String) (e : Bytes) (m v : ℕ) → Ends (write_masked card name e m v)
  unfolding write_masked
  write_masked-Ends name e m v = search (steps, read_address-Ends, write_address-Ends) depth 8

  -- writeReg always ends: it never runs on in one of its loops.
  pub write_reg-Ends : (name : String) (v : ℕ) → Ends (write_reg card name v)
  unfolding write_reg
  write_reg-Ends name v =
      option-Ends (card.dbi name) _ _ (respond-Ends _)
        (λ e. search (steps, write_masked-Ends, write_address-Ends) depth 9)
