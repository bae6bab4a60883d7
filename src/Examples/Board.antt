-- ===== src/Examples/Board.antt =====
-- A board with memory behind every register name, for the examples.
use ctp7_modules.Prelude.{ℕ, ◌%◌, ◌^◌, ◌≡◌, refl, String, List, [], ◌∷◌, some, arith}
use ctp7_modules.Effect.{Card, Reply, idle, ok}
use ctp7_modules.AddressTable.{Node, serialize}
use ctp7_modules.AddressTable.RoundTrip.{IsEntry}
use ctp7_modules.Register.{read_reg}
use ctp7_modules.Register.Access.{contains_byte}
use ctp7_modules.Register.Ram.{ram_card, ram_card-Ram}
use ctp7_modules.Register.RoundTrip.{read_reg-idle}

-- A field of 16 bits in the middle of a register.
abbrev pub field : Node
field = record {
  real_address = 0x65000004;
  permission = b'r' ∷ b'w' ∷ [];
  mask = 0x00ffff00;
  mode = b's' ∷ b'i' ∷ b'n' ∷ b'g' ∷ b'l' ∷ b'e' ∷ [];
  size = 1;
}

-- A memory of 256 words.
abbrev pub memory : Node
memory = record {
  real_address = 0x66000000;
  permission = b'r' ∷ b'w' ∷ [];
  mask = 0xffffffff;
  mode = b'i' ∷ b'n' ∷ b'c' ∷ [];
  size = 256;
}

pub field-IsEntry : IsEntry field
field-IsEntry = record {
  address_fits = omega arith;
  mask_fits = omega arith;
  size_fits = omega arith;
  plain_permission = omega arith;
  plain_mode = omega arith;
}

pub memory-IsEntry : IsEntry memory
memory-IsEntry = record {
  address_fits = omega arith;
  mask_fits = omega arith;
  size_fits = omega arith;
  plain_permission = omega arith;
  plain_mode = omega arith;
}

-- Every name is that node.
abbrev pub board : Node → Card (ℕ → ℕ)
board n = ram_card (λ name. some (serialize n))

-- Every word of the memory is `v`.
abbrev pub filled : ℕ → ℕ → ℕ
filled v a = v

-- Any register of the memory reads the word there.
pub board_reads_word :
    (h : ℕ → ℕ) (name : String) (r : List Reply)
    → read_reg (board memory) name (idle h r) ≡ (ok (h 0x66000000 % 2 ^ 32), idle h r)
unfolding contains_byte
board_reads_word h name r =
    read_reg-idle (board memory) (ram_card-Ram (λ n. some (serialize memory))) memory memory-IsEntry
      name refl h r refl

pub board_reads :
    (v : ℕ) (name : String) (r : List Reply)
    → read_reg (board memory) name (idle (filled v) r) ≡ (ok (v % 2 ^ 32), idle (filled v) r)
board_reads v name r = board_reads_word (filled v) name r
