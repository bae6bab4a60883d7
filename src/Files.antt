-- ===== src/Files.antt =====
-- The configuration files of the VFATs: what `std::ifstream` and `std::getline` give of a file, and
-- `operator>>` of a text and of a `uint32_t`. The file system is a parameter.
use Prim.Native.Char.{Char, code}
use ctp7_modules.Prelude.{
  ℕ, zero, suc, ◌+◌, ◌-◌, ◌*◌, ◌%◌, ◌^◌, String, List, [], ◌∷◌, Bool, true, false, ◌&&◌, ◌||◌,
  Option, none, some, ltb, leb, ◌==◌, if◌then◌else◌,
}

-- The lines of the file of that name, or `none` if it cannot be opened.
abbrev pub Files : Type 0
Files = String → Option (List String)

-- The lines that are left behind `std::getline(infile, line); // skip first line`.
unfoldable pub body_lines : Option (List String) → List String
body_lines none = []
body_lines (some []) = []
body_lines (some (header ∷ rest)) = rest

unfoldable pub is_blank : Char → Bool
is_blank c = code c == 32 || (leb 9 (code c) && leb (code c) 13)

unfoldable pub skip_blanks : String → String
unfolding is_blank
skip_blanks String.[] = String.[]
skip_blanks (String.◌∷◌ c s) = if is_blank c then skip_blanks s else String.◌∷◌ c s

abbrev is_decimal : Char → Bool
is_decimal c = leb b'0' (code c) && leb (code c) b'9'

-- The digits in front, as a number, behind `acc`; and what follows them.
unfoldable pub digits_value : String → ℕ → ℕ × String
digits_value String.[] acc = (acc, String.[])
digits_value (String.◌∷◌ c s) acc =
    if is_decimal c then digits_value s (acc * 10 + (code c - b'0')) else (acc, String.◌∷◌ c s)

-- A number needs a digit, and 32 bits at most; behind a minus sign it is negated in them.
unfoldable pub digits_word : Bool → String → Option (ℕ × String)
digits_word negative String.[] = none
digits_word negative (String.◌∷◌ c s) =
    let (v, rest) = digits_value (String.◌∷◌ c s) 0 in
    if is_decimal c && ltb v (2 ^ 32)
    then some ((if negative then (2 ^ 32 - v) % 2 ^ 32 else v), rest)
    else none

unfoldable pub signed_word : String → Option (ℕ × String)
signed_word String.[] = none
signed_word (String.◌∷◌ c s) =
    if code c == b'-'
    then digits_word true s
    else if code c == b'+'
    then digits_word false s
    else digits_word false (String.◌∷◌ c s)

-- `iss >> n` for a `uint32_t n`.
unfoldable pub extract_word : String → Option (ℕ × String)
extract_word s = signed_word (skip_blanks s)

-- The bytes up to the next blank, and what follows them.
unfoldable pub until_blank : String → String × String
until_blank String.[] = (String.[], String.[])
until_blank (String.◌∷◌ c s) =
    let (name, rest) = until_blank s in
    if is_blank c then (String.[], String.◌∷◌ c s) else (String.◌∷◌ c name, rest)

unfoldable pub nonempty : String × String → Option (String × String)
nonempty (String.[], rest) = none
nonempty (String.◌∷◌ c name, rest) = some (String.◌∷◌ c name, rest)

-- `iss >> name` for a `std::string name`.
unfoldable pub extract_name : String → Option (String × String)
extract_name s = nonempty (until_blank (skip_blanks s))

infixl 5 ◌then_get◌
abbrev pub ◌then_get◌ : {A B : Type 0} → Option A → (A → Option B) → Option B
none then_get f = none
some a then_get f = f a

-- `iss >> n1 >> n2 >> …`, so many numbers.
unfoldable pub extract_words : ℕ → String → Option (List ℕ)
extract_words zero s = some []
extract_words (suc n) s =
    extract_word s then_get (λ p. extract_words n p.1 then_get (λ vs. some (p.0 ∷ vs)))

-- `iss >> name >> n`.
unfoldable pub extract_setting : String → Option (String × ℕ)
extract_setting s = extract_name s then_get (λ p. extract_word p.1 then_get (λ q. some (p.0, q.0)))
