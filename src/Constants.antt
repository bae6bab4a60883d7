-- ===== src/Constants.antt =====
-- The hardware constants of include/hw_constants.h, for the variant ge11.
use ctp7_modules.Prelude.{ℕ, List, [], ◌∷◌}

abbrev pub oh_per_amc : ℕ
oh_per_amc = 12

abbrev pub vfats_per_oh : ℕ
vfats_per_oh = 24

abbrev pub oh_single_ram_size : ℕ
oh_single_ram_size = 200

abbrev pub vfat_single_ram_size : ℕ
vfat_single_ram_size = 74

abbrev pub gbt_config_size : ℕ
gbt_config_size = 366

abbrev pub phase_min : ℕ
phase_min = 0

abbrev pub phase_max : ℕ
phase_max = 15

abbrev pub gbts_per_oh : ℕ
gbts_per_oh = 3

abbrev pub gbt_single_ram_size : ℕ
gbt_single_ram_size = 92

abbrev pub vfat_to_gbt : List ℕ
vfat_to_gbt =
    1 ∷ 1 ∷ 1 ∷ 1 ∷ 1 ∷ 1 ∷ 1 ∷ 0 ∷ 1 ∷ 2 ∷ 2 ∷ 2 ∷ 0 ∷ 0 ∷ 0 ∷ 0 ∷ 1 ∷ 2 ∷ 2 ∷ 2 ∷ 2 ∷ 2 ∷ 2 ∷ 0
    ∷ []

abbrev pub vfat_to_elink : List ℕ
vfat_to_elink =
    5 ∷ 9 ∷ 2 ∷ 3 ∷ 1 ∷ 8 ∷ 6 ∷ 6 ∷ 4 ∷ 1 ∷ 5 ∷ 4 ∷ 3 ∷ 2 ∷ 1 ∷ 0 ∷ 7 ∷ 8 ∷ 6 ∷ 7 ∷ 2 ∷ 3 ∷ 9 ∷ 8
    ∷ []

abbrev pub elink_to_registers : List (List ℕ)
elink_to_registers =
    (69 ∷ 73 ∷ 77 ∷ [])
    ∷ (67 ∷ 71 ∷ 75 ∷ [])
    ∷ (93 ∷ 97 ∷ 101 ∷ [])
    ∷ (91 ∷ 95 ∷ 99 ∷ [])
    ∷ (117 ∷ 121 ∷ 125 ∷ [])
    ∷ (115 ∷ 119 ∷ 123 ∷ [])
    ∷ (141 ∷ 145 ∷ 149 ∷ [])
    ∷ (139 ∷ 143 ∷ 147 ∷ [])
    ∷ (165 ∷ 169 ∷ 173 ∷ [])
    ∷ (163 ∷ 167 ∷ 171 ∷ [])
    ∷ []
