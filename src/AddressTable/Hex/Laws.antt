-- ===== src/AddressTable/Hex/Laws.antt =====
-- `stoull` of what `std::hex` printed.
use native.Mathlib.Nat.{pow-suc}
use native.Mathlib.Decide.{dec_lt, ℕ_discrete}
use ctp7_modules.Prelude.{
  ℕ, zero, suc, ◌+◌, ◌*◌, ◌/◌, ◌%◌, ◌^◌, ◌<◌, ◌≤◌, [], ◌∷◌, true, false, ◌≢◌, some, ◌≡◌, refl,
  arith, ap, sym, ◌∙◌, All,
}
use ctp7_modules.Effect.{Bytes, ok}
use ctp7_modules.AddressTable.Hex.{
  hex_digit, hex_digits, hex, digit_value, scan_digits, starts_with_digit, strip_prefix,
  skip_spaces, signed, unsigned, stoull_hex, is_space,
}

digit_value-hex_digit : (d : ℕ) → d < 16 → digit_value (hex_digit d) ≡ some d
unfolding digit_value hex_digit
digit_value-hex_digit d h = ground arith

scan_digits_cons :
    (d : ℕ) (s : Bytes) (acc : ℕ)
    → d < 16
    → scan_digits (hex_digit d ∷ s) acc ≡ scan_digits s (acc * 16 + d)
unfolding scan_digits
scan_digits_cons d s acc h = ground (arith, digit_value-hex_digit d h)

scan_digits_head : (d : ℕ) (s : Bytes) → d < 16 → scan_digits (hex_digit d ∷ s) 0 ≡ scan_digits s d
scan_digits_head d s h = scan_digits_cons d s 0 h ∙ ap (λ (v : ℕ). scan_digits s v) (omega arith)

hex_digits_small : (f n : ℕ) (out : Bytes) → n < 16 → hex_digits (suc f) n out ≡ hex_digit n ∷ out
unfolding hex_digits
hex_digits_small f n out h = ground arith

hex_digits_large :
    (f n : ℕ) (out : Bytes)
    → 16 ≤ n
    → hex_digits (suc f) n out ≡ hex_digits f (n / 16) (hex_digit (n % 16) ∷ out)
unfolding hex_digits
hex_digits_large f n out h = ground arith

-- Printing in front of `out` and scanning from 0 leaves the scan of `out` from the number.
scan_digits-hex_digits :
    (f n : ℕ) (out : Bytes)
    → n < 16 ^ suc f
    → scan_digits (hex_digits (suc f) n out) 0 ≡ scan_digits out n
scan_digits-hex_digits zero n out h = rw (hex_digits_small 0 n out h) (scan_digits_head n out h)
scan_digits-hex_digits (suc f) n out h = elim (dec_lt n 16) [
  | yes small ↦ rw (hex_digits_small (suc f) n out small) (scan_digits_head n out small)
  | no large ↦
      let out' = hex_digit (n % 16) ∷ out in
      rw (hex_digits_large (suc f) n out (omega arith)) (
        scan_digits-hex_digits f (n / 16) out' (omega (arith, pow-suc 16 (suc f)))
        ∙ scan_digits_cons (n % 16) out (n / 16) (omega arith)
        ∙ ap (λ (v : ℕ). scan_digits out v) (omega arith))
]

-- The first byte is a digit, and it is 0 only for the number 0, which is one byte.
abbrev Leads : ℕ → Bytes → Bytes → Type 0
Leads n out s =
    (d : ℕ) × (rest : Bytes) × (s ≡ hex_digit d ∷ rest)
    × (d < 16)
    × (d ≡ 0 → (n ≡ 0) × (rest ≡ out))

hex_digits-Leads : (f n : ℕ) (out : Bytes) → n < 16 ^ suc f → Leads n out (hex_digits (suc f) n out)
hex_digits-Leads zero n out h = (n, out, hex_digits_small 0 n out h, h, λ e. (e, refl))
hex_digits-Leads (suc f) n out h = elim (dec_lt n 16) [
  | yes small ↦ (n, out, hex_digits_small (suc f) n out small, small, λ e. (e, refl))
  | no large ↦
      let (d, rest, e, lt, z) =
        hex_digits-Leads f (n / 16) (hex_digit (n % 16) ∷ out)
          (omega (arith, pow-suc 16 (suc f))) in
      (
        d,
        rest,
        hex_digits_large (suc f) n out (omega arith) ∙ e,
        lt,
        λ zero_lead. absurd (omega (arith, z zero_lead)),
      )
]

strip_prefix_other : (z : ℕ) (s : Bytes) → z ≢ b'0' → strip_prefix (z ∷ s) ≡ z ∷ s
unfolding strip_prefix
strip_prefix_other z [] h = refl
strip_prefix_other z (x ∷ s) h = ground arith

skip_spaces_digit : (d : ℕ) (s : Bytes) → d < 16 → skip_spaces (hex_digit d ∷ s) ≡ hex_digit d ∷ s
unfolding skip_spaces is_space hex_digit
skip_spaces_digit d s h = ground arith

signed_digit :
    (d : ℕ) (s : Bytes) → d < 16 → signed (hex_digit d ∷ s) ≡ unsigned false (hex_digit d ∷ s)
unfolding signed hex_digit
signed_digit d s h = ground arith

hex_digit-ne : (d : ℕ) → d < 16 → d ≢ 0 → hex_digit d ≢ b'0'
unfolding hex_digit
hex_digit-ne d h ne = ground arith

strip_prefix_digit :
    (d : ℕ) (s : Bytes)
    → d < 16
    → (d ≡ 0 → s ≡ [])
    → strip_prefix (hex_digit d ∷ s) ≡ hex_digit d ∷ s
strip_prefix_digit d s h z = elim (ℕ_discrete d 0) [
  | yes e ↦ rw (z e) (unfold strip_prefix in refl)
  | no ne ↦ strip_prefix_other (hex_digit d) s (hex_digit-ne d h ne)
]

starts_with_digit_digit : (d : ℕ) (s : Bytes) → d < 16 → starts_with_digit (hex_digit d ∷ s) ≡ true
unfolding starts_with_digit
starts_with_digit_digit d s h = ground (arith, digit_value-hex_digit d h)

unsigned_plain :
    (t : Bytes)
    → strip_prefix t ≡ t
    → starts_with_digit t ≡ true
    → scan_digits t 0 < 2 ^ 32
    → unsigned false t ≡ ok (scan_digits t 0)
unfolding unsigned
unsigned_plain t plain digit small = rw (plain, digit) (ground arith)

-- stoull to the base 16 of a 32-bit number printed with std::hex gives the number back.
pub stoull_hex-hex : (n : ℕ) → n < 2 ^ 32 → stoull_hex (hex n) ≡ ok n
unfolding hex scan_digits stoull_hex
stoull_hex-hex n h =
    let (d, rest, e, lt, z) = hex_digits-Leads 7 n [] (omega arith) in
    let scan : scan_digits (hex_digit d ∷ rest) 0 ≡ n =
      ap (λ s. scan_digits s 0) (sym e) ∙ scan_digits-hex_digits 7 n [] (omega arith) in
    rw (e, stoull_hex, skip_spaces_digit d rest lt, signed_digit d rest lt)
      (unsigned_plain (hex_digit d ∷ rest) (strip_prefix_digit d rest lt (λ e0. (z e0).1))
          (starts_with_digit_digit d rest lt) (rw scan (omega arith))
        ∙ ap ok scan)

-- No digit is the delimiter of the table.
hex_digits-Lacks :
    (f n : ℕ) (out : Bytes) → All (λ c. c ≢ b'|') out → All (λ c. c ≢ b'|') (hex_digits f n out)
unfolding hex_digits hex_digit
hex_digits-Lacks zero n out h = h
hex_digits-Lacks (suc f) n out h =
    ground (arith, hex_digits-Lacks f (n / 16) (hex_digit (n % 16) ∷ out))

pub hex-Lacks : (n : ℕ) → All (λ c. c ≢ b'|') (hex n)
unfolding hex
hex-Lacks n = hex_digits-Lacks 8 n [] tt

hex_digits-ne-nil : (f n c : ℕ) (out : Bytes) → hex_digits f n (c ∷ out) ≢ []
unfolding hex_digits
hex_digits-ne-nil zero n c out h = cc
hex_digits-ne-nil (suc f) n c out h =
    ground (arith, hex_digits-ne-nil f (n / 16) (hex_digit (n % 16)) (c ∷ out))

hex_digits_first : (f n : ℕ) → hex_digits (suc f) n [] ≢ []
unfolding hex_digits
hex_digits_first f n = ground (arith, hex_digits-ne-nil f (n / 16) (hex_digit (n % 16)) [])

pub hex-ne-nil : (n : ℕ) → hex n ≢ []
unfolding hex
hex-ne-nil n = hex_digits_first 7 n
