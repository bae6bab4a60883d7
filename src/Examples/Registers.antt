-- ===== src/Examples/Registers.antt =====
-- The theorems on registers and their table, applied.
use package.text.Mathlib.TextEquality.{eq_iff}
use ctp7_modules.Prelude.{
  ◌≢◌, ℕ, zero, suc, ne→==_false, ◌-◌, ◌<◌, String, [], ◌∷◌, true, none, some, if◌then◌else◌, ◌==◌,
  ◌≡◌, refl, arith,
}
use ctp7_modules.Prelude.Bits.{bit}
use ctp7_modules.Effect.{Card, Request, idle, ok, set_word, set_bytes, ◌>>=◌, ◌>>◌}
use ctp7_modules.AddressTable.{serialize}
use ctp7_modules.AddressTable.Update.{update_address_table, find, IsMap}
use ctp7_modules.Register.{read_reg, write_reg, read_reg_from_db}
use ctp7_modules.Register.Access.{contains_byte}
use ctp7_modules.Register.Retry.{attempt}
use ctp7_modules.Register.Ram.{ram_card-Ram}
use ctp7_modules.Register.RoundTrip.{read_reg-write_reg}
use ctp7_modules.Register.Database.{read_reg_from_db-update_address_table}
use ctp7_modules.Examples.Board.{field, memory, field-IsEntry, board, filled}

read_reg-write_reg_example :
    (h' : ℕ → ℕ) × ((write_reg (board field) "GEM_AMC.FIELD" 0xcafe
          >> read_reg (board field) "GEM_AMC.FIELD")
        (idle (filled 0x11223344) [])
      ≡ (ok 0xcafe, idle h' []))
    × ((i : ℕ) → i < 32 → bit i 0x00ffff00 ≡ 0 → bit i (h' 0x65000004) ≡ bit i 0x11223344)
    × ((b : ℕ) → 0x65000004 ≢ b → h' b ≡ 0x11223344)
unfolding contains_byte
read_reg-write_reg_example =
    read_reg-write_reg (board field) (ram_card-Ram (λ name. some (serialize field))) field
      field-IsEntry "GEM_AMC.FIELD" refl 16 8 0xcafe (filled 0x11223344) [] refl (omega arith)
      (omega arith) (omega arith) refl (omega arith) (omega arith)

request : String → Request
request s = record {
  word = λ key. 0;
  string = λ key. s;
  word_array = λ key. [];
  binarydata = λ key. [];
  key_exists = λ key. true;
}

read_reg_from_db-update_address_table_example :
    (update_address_table
          (λ xml. some (("top", memory) ∷ ("GEM_AMC.FIELD", field) ∷ []))
          (board memory)
          (request "table.xml")
        >>= (λ card. read_reg_from_db card (request "GEM_AMC.FIELD")))
      (idle (filled 0) [])
    ≡ (
      ok tt,
      idle (filled 0) (
          set_word "size" 1
          ∷ set_word "mask" 0x00ffff00
          ∷ set_word "address" 0x65000004
          ∷ set_bytes "mode" field.mode
          ∷ set_bytes "permissions" field.permission
          ∷ []),
    )
unfolding request find IsMap
read_reg_from_db-update_address_table_example =
    read_reg_from_db-update_address_table
      (λ xml. some (("top", memory) ∷ ("GEM_AMC.FIELD", field) ∷ [])) (board memory)
      (request "table.xml") (request "GEM_AMC.FIELD")
      (("top", memory) ∷ ("GEM_AMC.FIELD", field) ∷ []) field (idle (filled 0) []) refl
      (refl, (refl, tt)) refl (ground (arith, eq_iff "GEM_AMC.FIELD" "top")) field-IsEntry

-- A board whose reads fail, from the hardware's `n` on, `n` times; then they give 5.
flaky : Card ℕ
flaky = record {
  memsvc_open = λ h. (true, h);
  memsvc_close = λ h. (true, h);
  memsvc_read = λ h a n. (if h == 0 then some (λ i. 5) else none, h - 1);
  memsvc_write = λ h a vs. (true, h);
  sleep = λ t h. h;
  dbi = λ name. none;
}

sub_one : (n : ℕ) → suc n - 1 ≡ n
sub_one n = omega arith

flaky_fails : (n i : ℕ) → i < n → attempt flaky 0x65000004 n i ≡ none
unfolding flaky
flaky_fails zero i lt = absurd (omega arith)
flaky_fails (suc n) zero lt = rw (ne→==_false (suc n) 0 (omega arith)) refl
flaky_fails (suc n) (suc i) lt = rw (sub_one n) (flaky_fails n i (omega arith))
