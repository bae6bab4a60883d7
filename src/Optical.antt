-- ===== src/Optical.antt =====
-- src/optical.cpp: the input power of the optical receivers, over the I2C buses of the card. The
-- buses (libwisci2c and the kernel's device files) are a value of `Bus`, outside the repository.
pub mod Laws
use ctp7_modules.Prelude.{
  ℕ, zero, suc, ◌+◌, ◌*◌, ◌/◌, ◌%◌, ◌^◌, String, List, [], ◌∷◌, Bool, true, false, Option, none,
  some,
}
use ctp7_modules.Effect.{
  M, Message, text, naming, set_word_array, pure, ◌>>=◌, ◌>>◌, respond, set_error, modify_hw, ok,
}
use ctp7_modules.Names.{decimal, ◌◇◌}

-- `open` gives no descriptor if it fails, and `close` is then called with what is none. `i2c_write`
-- tells if the one byte was written, `i2c_read` gives the two bytes of the buffer if it read both.
pub record Bus (S : Type 0) : Type 0 where
  pub open_device : S → String → Option ℕ × S
  pub close : S → Option ℕ → S
  pub i2c_write : S → ℕ → ℕ → ℕ → ℕ → Bool × S
  pub i2c_read : S → ℕ → ℕ → ℕ → Option (ℕ × ℕ) × S

-- A `uint16_t` in the byte order of the card, the lower byte first, and `__builtin_bswap16`.
unfoldable pub word_of : ℕ × ℕ → ℕ
word_of (b0, b1) = b0 % 2 ^ 8 + b1 % 2 ^ 8 * 2 ^ 8

unfoldable pub swap : ℕ → ℕ
swap x = x % 2 ^ 8 * 2 ^ 8 + x / 2 ^ 8 % 2 ^ 8

unfoldable pub power_of : ℕ × ℕ → ℕ
power_of b = swap (word_of b) / 10

module _ {S : Type 0} (bus : Bus S) where
  abbrev pub close : Option ℕ → M S (Unit {0})
  close fd w = (ok tt, record w { hw = bus.close w.hw fd })

  -- The loop over the twelve channels, from register `reg` on: `none` once a read failed.
  unfoldable pub read_powers : ℕ → ℕ → ℕ → ℕ → M S (Option (List ℕ))
  read_powers fd dev reg zero = pure (some [])
  read_powers fd dev reg (suc left) = modify_hw (λ h. bus.i2c_read h fd dev reg) >>= (λ b. elim b [
    | none ↦ set_error (text "i2c read failure") >> pure none
    | some bytes ↦ read_powers fd dev (reg + 2) left >>= (λ rest. elim rest [
      | none ↦ pure none
      | some powers ↦ pure (some (power_of bytes ∷ powers))
    ])
  ])

  -- The channels of one device into the reply; `false` is an early return.
  unfoldable pub report_powers : String → ℕ → ℕ → ℕ → M S Bool
  report_powers key fd dev reg = read_powers fd dev reg 12 >>= (λ powers. elim powers [
    | none ↦ pure false
    | some l ↦ respond (set_word_array key l) >> pure true
  ])

  -- Open the device file, run the body, close the file, whatever the body came to. An error names
  -- the file as `shown`.
  unfoldable pub with_device : String → String → (ℕ → M S Bool) → M S Bool
  with_device devnode shown body = modify_hw (λ h. bus.open_device h devnode) >>= (λ fd. elim fd [
    | none ↦ set_error (naming "Unable to open %s" shown) >> close none >> pure false
    | some d ↦ body d >>= (λ on. close (some d) >> pure on)
  ])

  -- Select page 1 of the CXP module, then read.
  unfoldable pub read_cxp : ℕ → ℕ → M S Bool
  read_cxp i fd = modify_hw (λ h. bus.i2c_write h fd 0x54 127 1) >>= (λ written. elim written [
    | false ↦ set_error (text "i2c write failure") >> pure false
    | true ↦ report_powers ("CXP" ◇ decimal i) fd 0x54 206
  ])

  unfoldable pub read_cxps : ℕ → ℕ → M S Bool
  read_cxps i zero = pure true
  read_cxps i (suc left) =
      with_device ("/dev/i2c-" ◇ decimal (2 + i)) ("/dev/i2c-" ◇ decimal (2 + i)) (read_cxp i)
      >>= (λ on. elim on [ false ↦ pure false | true ↦ read_cxps (i + 1) left ])

  unfoldable pub read_minipods : ℕ → ℕ → ℕ → M S Bool
  read_minipods fd i zero = pure true
  read_minipods fd i (suc left) =
      report_powers ("MP" ◇ decimal i) fd (0x30 + i) 64
      >>= (λ on. elim on [ false ↦ pure false | true ↦ read_minipods fd (i + 1) left ])

  -- As built for the CTP7.
  unfoldable pub measure_input_power : M S (Unit {0})
  measure_input_power = read_cxps 0 3 >>= (λ on. elim on [
    | false ↦ pure tt
    | true ↦ with_device "/dev/i2c-1" "i2c-1" (λ fd. read_minipods fd 0 3) >> pure tt
  ])
