-- ===== src/Vfat3/Monitor/Laws.antt =====
-- The fields of the register that selects a DAC.
use ctp7_modules.Prelude.{ℕ, ◌/◌, ◌%◌, ◌^◌, ◌<◌, ◌≡◌, arith}
use ctp7_modules.Vfat3.Monitor.{glb_ctr_4}

-- The selection, the gain and the reference come back from the register.
pub glb_ctr_4-fields :
    (vref gain dacSelect : ℕ)
    → vref < 2 ^ 24
    → gain < 2
    → dacSelect < 2 ^ 7
    → (glb_ctr_4 vref gain dacSelect % 2 ^ 7 ≡ dacSelect)
      × (glb_ctr_4 vref gain dacSelect / 2 ^ 7 % 2 ≡ gain)
      × (glb_ctr_4 vref gain dacSelect / 2 ^ 8 ≡ vref)
unfolding glb_ctr_4
glb_ctr_4-fields vref gain dacSelect vref_fits gain_fits dac_fits =
    (omega arith, omega arith, omega arith)
