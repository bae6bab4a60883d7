-- ===== src/Register/File.antt =====
-- Registers by name as a client sees them: a value for each name, that a write replaces. The record
-- is what the modules above need of the registers; a board whose address space behaves like memory
-- fills it.
use package.text.Mathlib.Text.{◌==◌ as str_eq}
use package.text.Mathlib.TextEquality.{eq_iff}
use ctp7_modules.Prelude.{
  ℕ, ◌%◌, ◌^◌, ◌<◌, String, List, Bool, true, false, some, ◌==◌, if◌then◌else◌, ◌≡◌, ◌≢◌, arith,
  Bool-cases, inl, inr, ap,
}
use ctp7_modules.Effect.{Card, Reply, idle, ok}
use ctp7_modules.AddressTable.{Node, serialize}
use ctp7_modules.AddressTable.RoundTrip.{IsEntry}
use ctp7_modules.Register.Mask.{full_mask}
use ctp7_modules.Register.Access.{contains_byte, read_reg, write_reg}
use ctp7_modules.Register.Ram.{Ram}
use ctp7_modules.Register.RoundTrip.{read_reg-idle_plain, write_reg-idle_plain}

pub record RegisterFile {S : Type 0} (card : Card S) (known : String → Bool) : Type 0 where
  pub get : S → String → ℕ
  pub put : S → String → ℕ → S
  pub reads :
      (name : String) (h : S) (r : List Reply)
      → known name ≡ true
      → read_reg card name (idle h r) ≡ (ok (get h name), idle h r)
  pub writes :
      (name : String) (v : ℕ) (h : S) (r : List Reply)
      → known name ≡ true
      → write_reg card name v (idle h r) ≡ (ok tt, idle (put h name v) r)
  pub get-put :
      (h : S) (name other : String) (v : ℕ)
      → known name ≡ true
      → known other ≡ true
      → v < 2 ^ 32
      → get (put h name v) other ≡ (if str_eq name other then v else get h other)

-- A register without a mask that can be read and written, under its name.
pub record IsPlain {S : Type 0} (card : Card S) (name : String) (n : Node) : Type 0 where
  pub entry : IsEntry n
  pub found : card.dbi name ≡ some (serialize n)
  pub readable : contains_byte b'r' n.permission ≡ true
  pub full : (n.mask == full_mask) ≡ true

module _ {S : Type 0} (card : Card S) (ram : Ram card) where
  open ram use {peek, poke, peek-poke}

  module _ (name : String) (n : Node) (p : IsPlain card name n) where
    pub read_plain :
        (h : S) (r : List Reply)
        → read_reg card name (idle h r) ≡ (ok (peek h n.real_address % 2 ^ 32), idle h r)
    read_plain h r = read_reg-idle_plain card ram n p.entry name p.found h r p.readable p.full

    pub write_plain :
        (v : ℕ) (h : S) (r : List Reply)
        → write_reg card name v (idle h r) ≡ (ok tt, idle (poke h n.real_address v) r)
    write_plain v h r = write_reg-idle_plain card ram n p.entry name p.found v h r p.full

  module _ (known : String → Bool) (node : String → Node)
      (plain : (name : String) → known name ≡ true → IsPlain card name (node name))
      (distinct : (name other : String)
        → known name ≡ true
        → known other ≡ true
        → str_eq name other ≡ false
        → (node name).real_address ≢ (node other).real_address) where
    unfoldable pub value : S → String → ℕ
    value h name = peek h (node name).real_address % 2 ^ 32

    unfoldable pub replace : S → String → ℕ → S
    replace h name v = poke h (node name).real_address v

    pub value-replace :
        (h : S) (name other : String) (v : ℕ)
        → known name ≡ true
        → known other ≡ true
        → v < 2 ^ 32
        → value (replace h name v) other ≡ (if str_eq name other then v else value h other)
    unfolding value replace
    value-replace h name other v k k' fits =
        let law = peek-poke h (node name).real_address v (node other).real_address in
        elim (Bool-cases (str_eq name other)) [
          | inl same ↦
              let here : (node name).real_address ≡ (node other).real_address =
                ap (λ x. (node x).real_address) ((eq_iff name other).0 same) in
              rw same (ground (arith, law, here))
          | inr apart ↦
              let there = distinct name other k k' apart in rw apart (ground (arith, law, there))
        ]

    -- The registers of a board whose address space behaves like memory, at different addresses.
    unfoldable pub memory_file : RegisterFile card known
    unfolding value replace
    memory_file = record {
      get = value;
      put = replace;
      reads = λ name h r k. read_plain name (node name) (plain name k) h r;
      writes = λ name v h r k. write_plain name (node name) (plain name k) v h r;
      get-put = value-replace;
    }
