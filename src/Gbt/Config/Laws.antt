-- ===== src/Gbt/Config/Laws.antt =====
-- The registers of the phases in include/hw_constants.h, looked up for each VFAT.
use ctp7_modules.Prelude.{
  ℕ, zero, suc, ◌<◌, List, [], ◌∷◌, Bool, true, ◌&&◌, ◌||◌, not, ltb, ◌==◌, ◌≡◌, refl, arith,
  get_or, length,
}
use ctp7_modules.Constants.{gbts_per_oh, gbt_config_size, vfats_per_oh}
use ctp7_modules.Gbt.Tables.{vfat_gbt, phase_registers}

-- Every value below `n` passes a test.
every : ℕ → (ℕ → Bool) → Bool
every zero p = true
every (suc n) p = p n && every n p

every_sound : (n : ℕ) (p : ℕ → Bool) (x : ℕ) → every n p ≡ true → x < n → p x ≡ true
unfolding every
every_sound zero p x h lt = absurd (omega arith)
every_sound (suc n) p x h lt = ground (arith, every_sound n p x)

-- The `i`-th of the three registers of a VFAT's phase.
abbrev pub register : ℕ → ℕ → ℕ
register vfat i = get_or (phase_registers vfat) i gbt_config_size

pub three_parts :
    (l : List ℕ) (d : ℕ) → length l ≡ 3 → l ≡ get_or l 0 d ∷ get_or l 1 d ∷ get_or l 2 d ∷ []
three_parts [] d h = absurd (omega arith)
three_parts (a ∷ []) d h = absurd (omega arith)
three_parts (a ∷ b ∷ []) d h = absurd (omega arith)
three_parts (a ∷ b ∷ c ∷ []) d h = refl
three_parts (a ∷ b ∷ c ∷ x ∷ l) d h = absurd (omega arith)

-- The mapping of a VFAT stays inside the hardware: three registers of an existing GBT.
abbrev pub IsMapped : ℕ → Type 0
IsMapped vfat =
    (length (phase_registers vfat) ≡ 3)
    × (vfat_gbt vfat < gbts_per_oh)
    × (register vfat 0 < gbt_config_size)
    × (register vfat 1 < gbt_config_size)
    × (register vfat 2 < gbt_config_size)

is_mapped : ℕ → Bool
is_mapped v =
    length (phase_registers v) == 3
    && (ltb (vfat_gbt v) gbts_per_oh
        && (ltb (register v 0) gbt_config_size
            && (ltb (register v 1) gbt_config_size && ltb (register v 2) gbt_config_size)))

test_parts :
    (len a b c d e f : ℕ)
    → (len == 3 && (ltb a b && (ltb c d && (ltb e d && ltb f d)))) ≡ true
    → (len ≡ 3) × (a < b) × (c < d) × (e < d) × (f < d)
test_parts len a b c d e f h = ground arith

is_mapped_sound : (v : ℕ) → is_mapped v ≡ true → IsMapped v
unfolding is_mapped
is_mapped_sound v h = test_parts _ _ _ _ _ _ _ h

mapped_table : every 24 is_mapped ≡ true
unfolding every is_mapped
mapped_table = refl

-- Each of the 24 VFATs is mapped to an existing GBT and to three registers within its address
-- space.
pub vfat-IsMapped : (vfat : ℕ) → vfat < vfats_per_oh → IsMapped vfat
vfat-IsMapped vfat h = is_mapped_sound vfat (every_sound 24 is_mapped vfat mapped_table h)

differ : ℕ → ℕ → ℕ → ℕ → Bool
differ v w i j =
    not ((vfat_gbt v == vfat_gbt w) && (register v i == register w j)) || (v == w && i == j)

differ_table : every 24 (λ v. every 24 (λ w. every 3 (λ i. every 3 (differ v w i)))) ≡ true
unfolding every differ
differ_table = refl

differ_sound :
    (v w i j a b c d : ℕ)
    → (not ((a == b) && (c == d)) || (v == w && i == j)) ≡ true
    → a ≡ b
    → c ≡ d
    → (v ≡ w) × (i ≡ j)
differ_sound v w i j a b c d h p q = ground arith

-- No two VFATs of one GBT share a phase register, nor does one VFAT have a register twice.
pub phase_registers_injective :
    (v w i j : ℕ)
    → v < vfats_per_oh
    → w < vfats_per_oh
    → i < 3
    → j < 3
    → vfat_gbt v ≡ vfat_gbt w
    → register v i ≡ register w j
    → (v ≡ w) × (i ≡ j)
unfolding differ
phase_registers_injective v w i j hv hw hi hj g r =
    let at_v =
      every_sound 24 (λ v. every 24 (λ w. every 3 (λ i. every 3 (differ v w i)))) v differ_table
        hv in
    let at_w = every_sound 24 (λ w. every 3 (λ i. every 3 (differ v w i))) w at_v hw in
    let at_i = every_sound 3 (λ i. every 3 (differ v w i)) i at_w hi in
    differ_sound v w i j _ _ _ _ (every_sound 3 (differ v w i) j at_i hj) g r
