-- ===== src/Examples/Named.antt =====
-- A board with a register without a mask behind each name of a list, for the examples.
use package.text.Mathlib.Text.{◌==◌ as str_eq}
use package.text.Mathlib.TextEquality.{eq_iff}
use ctp7_modules.Prelude.{
  ℕ, suc, ◌+◌, ◌^◌, ◌<◌, ◌≤◌, String, List, [], ◌∷◌, Bool, true, false, ltb, Option, none, some,
  if◌then◌else◌, length, ◌≡◌, ◌≢◌, refl, arith, ltb→lt,
}
use ctp7_modules.Effect.{Card, Bytes}
use ctp7_modules.AddressTable.{Node, serialize}
use ctp7_modules.AddressTable.RoundTrip.{IsEntry}
use ctp7_modules.Register.Access.{contains_byte}
use ctp7_modules.Register.Ram.{ram_card, ram_card-Ram}
use ctp7_modules.Register.File.{IsPlain, RegisterFile, memory_file}
use ctp7_modules.Examples.Board.{memory}

abbrev pub position : List String → String → ℕ
position [] s = 0
position (n ∷ ns) s = if str_eq n s then 0 else suc (position ns s)

abbrev pub knows : List String → String → Bool
knows names s = ltb (position names s) (length names)

pub position-injective :
    (names : List String) (a b : String)
    → position names a < length names
    → position names b < length names
    → position names a ≡ position names b
    → str_eq a b ≡ true
position-injective [] a b h k e = absurd (omega arith)
position-injective (n ∷ ns) a b h k e =
    ground (arith, eq_iff n a, eq_iff n b, eq_iff a b, position-injective ns a b)

abbrev pub node_at : ℕ → Node
node_at k = record memory { real_address = 0x66000000 + k }

abbrev pub named_table : List String → String → Option Bytes
named_table names s = if knows names s then some (serialize (node_at (position names s))) else none

abbrev pub named_board : List String → Card (ℕ → ℕ)
named_board names = ram_card (named_table names)

node_at-IsEntry : (k : ℕ) → k < 2 ^ 16 → IsEntry (node_at k)
node_at-IsEntry k fits = record {
  address_fits = omega arith;
  mask_fits = omega arith;
  size_fits = omega arith;
  plain_permission = omega arith;
  plain_mode = omega arith;
}

module _ (names : List String) (short : length names ≤ 2 ^ 16) where
  pub named-IsPlain :
      (s : String)
      → knows names s ≡ true
      → IsPlain (named_board names) s (node_at (position names s))
  unfolding contains_byte
  named-IsPlain s known = record {
    entry =
        node_at-IsEntry (position names s)
          (omega (arith, ltb→lt (position names s) (length names) known));
    found = rw known refl;
    readable = refl;
    full = refl;
  }

  pub named_distinct :
      (s t : String)
      → knows names s ≡ true
      → knows names t ≡ true
      → str_eq s t ≡ false
      → (node_at (position names s)).real_address ≢ (node_at (position names t)).real_address
  named_distinct s t known known' apart same =
      let one =
        position-injective names s t (ltb→lt (position names s) (length names) known)
          (ltb→lt (position names t) (length names) known') (omega (arith, same)) in
      cc

  abbrev pub named_file : RegisterFile (named_board names) (knows names)
  named_file =
      memory_file (named_board names) (ram_card-Ram (named_table names)) (knows names)
        (λ s. node_at (position names s)) named-IsPlain named_distinct
