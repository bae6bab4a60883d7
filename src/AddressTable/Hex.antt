-- ===== src/AddressTable/Hex.antt =====
-- Hexadecimal numbers: `std::hex << n` for a 32-bit number, and `stoull(s, nullptr, 16)`.
pub mod Laws
pub mod Ends
use ctp7_modules.Prelude.{
  ℕ, zero, suc, ◌+◌, ◌-◌, ◌*◌, ◌/◌, ◌%◌, ◌^◌, [], ◌∷◌, Bool, true, false, ◌&&◌, ◌||◌, Option, none,
  some, ltb, leb, ◌==◌, if◌then◌else◌, ◌≡◌, refl,
}
use ctp7_modules.Effect.{Bytes, Exn, Message, Outcome, ok, throw}

-- A digit is printed in lower case.
unfoldable pub hex_digit : ℕ → ℕ
hex_digit d = if ltb d 10 then b'0' + d else b'a' + (d - 10)

-- The digits of `n` in front of `out`; `f` rounds are enough below 16 ^ f.
unfoldable pub hex_digits : ℕ → ℕ → Bytes → Bytes
hex_digits zero n out = out
hex_digits (suc f) n out = elim (n / 16 == 0) [
  | true ↦ hex_digit n ∷ out
  | false ↦ hex_digits f (n / 16) (hex_digit (n % 16) ∷ out)
]

unfoldable pub hex : ℕ → Bytes
hex n = hex_digits 8 n []

-- The value of a digit, in either case.
unfoldable pub digit_value : ℕ → Option ℕ
digit_value c =
    if leb b'0' c && leb c b'9'
    then some (c - b'0')
    else if leb b'a' c && leb c b'f'
    then some (c - b'a' + 10)
    else if leb b'A' c && leb c b'F'
    then some (c - b'A' + 10)
    else none

-- The digits up to the first byte that is none, as one number.
unfoldable pub scan_digits : Bytes → ℕ → ℕ
scan_digits [] acc = acc
scan_digits (c ∷ s) acc = elim (digit_value c) [
  | none ↦ acc
  | some d ↦ scan_digits s (acc * 16 + d)
]

pub starts_with_digit : Bytes → Bool
starts_with_digit [] = false
starts_with_digit (c ∷ s) = elim (digit_value c) [ none ↦ false | some d ↦ true ]

-- An optional "0x" or "0X", which counts only in front of a digit.
pub strip_prefix : Bytes → Bytes
unfolding starts_with_digit
strip_prefix (z ∷ x ∷ s) =
    if (z == b'0' && (x == b'x' || x == b'X')) && starts_with_digit s then s else z ∷ x ∷ s
strip_prefix s = s

pub is_space : ℕ → Bool
is_space c = c == 32 || (leb 9 c && leb c 13)

pub skip_spaces : Bytes → Bytes
unfolding is_space
skip_spaces [] = []
skip_spaces (c ∷ s) = if is_space c then skip_spaces s else c ∷ s

-- The number behind the sign: no digit and a value that needs more than 64 bits are refused.
pub unsigned : Bool → Bytes → Outcome ℕ
unfolding starts_with_digit strip_prefix scan_digits
unsigned negative s =
    let t = strip_prefix s in
    let v = scan_digits t 0 in
    if starts_with_digit t
    then (if leb (2 ^ 64) v
        then throw Exn.out_of_range (Message.text "stoull")
        else ok (if negative then (2 ^ 64 - v) % 2 ^ 64 else v))
    else throw Exn.invalid_argument (Message.text "stoull")

pub signed : Bytes → Outcome ℕ
unfolding unsigned
signed [] = unsigned false []
signed (c ∷ s) =
    if c == b'-'
    then unsigned true s
    else if c == b'+'
    then unsigned false s
    else unsigned false (c ∷ s)

unfoldable pub stoull_hex : Bytes → Outcome ℕ
unfolding skip_spaces signed
stoull_hex s = signed (skip_spaces s)
