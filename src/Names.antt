-- ===== src/Names.antt =====
-- Texts that the source builds by `stdsprintf` and `<<`: register names with numbers in them.
use Prim.Native.String.{◌++◌}
use ctp7_modules.Prelude.{
  ℕ, zero, suc, ◌/◌, ◌%◌, ◌^◌, ◌-◌, ltb, String, List, [], ◌∷◌, get_or, if◌then◌else◌, ◌==◌,
}

abbrev digit_names : List String
digit_names = "0" ∷ "1" ∷ "2" ∷ "3" ∷ "4" ∷ "5" ∷ "6" ∷ "7" ∷ "8" ∷ "9" ∷ []

digits : ℕ → ℕ → String → String
digits zero n acc = acc
digits (suc f) n acc =
    let acc' = get_or digit_names (n % 10) "0" ++ acc in
    let rest = digits f (n / 10) acc' in if n / 10 == 0 then acc' else rest

-- `%u` and `%i` of a number below 10 ^ 10, which a `uint32_t` is.
unfoldable pub decimal : ℕ → String
unfolding digits
decimal n = digits 10 n ""

-- `%hu` prints the low 16 bits.
abbrev pub short_decimal : ℕ → String
short_decimal n = decimal (n % 2 ^ 16)

infixr 65 ◌◇◌
abbrev pub ◌◇◌ : String → String → String
s ◇ t = s ++ t

-- `%i` and `%d` of a `uint32_t`: from 2 ^ 31 on it is printed as a negative number.
unfoldable pub int_decimal : ℕ → String
int_decimal n = if ltb n (2 ^ 31) then decimal n else "-" ◇ decimal (2 ^ 32 - n)
