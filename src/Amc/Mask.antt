-- ===== src/Amc/Mask.antt =====
-- Which VFATs to mask, by their count of synchronisation errors, and the firmware check.
pub mod Laws
use ctp7_modules.Prelude.{
  ℕ, zero, suc, ◌+◌, ◌%◌, ◌^◌, String, List, [], ◌∷◌, Bool, true, false, Option, none, some, ltb,
  leb, ◌==◌, if◌then◌else◌, length, set, ◌&&◌, ◌||◌,
}
use ctp7_modules.Prelude.Bits.{bit}
use ctp7_modules.Effect.{
  Card, M, Request, get_word, text, fault, set_word, set_word_array, pure, stop, ◌>>=◌, ◌>>◌,
  respond, set_error,
}
use ctp7_modules.Names.{decimal, int_decimal, ◌◇◌}
use ctp7_modules.Register.{read_reg}

abbrev pub sync_err_cnt : ℕ → ℕ → String
sync_err_cnt ohN vfatN =
    "GEM_AMC.OH_LINKS.OH" ◇ int_decimal ohN ◇ ".VFAT" ◇ decimal vfatN ◇ ".SYNC_ERR_CNT"

module _ {S : Type 0} (card : Card S) where
  -- The version comes back as an `unsigned int`, through an `int`: unchanged.
  unfoldable pub fw_version_check : M S ℕ
  fw_version_check = do
    iFWVersion ← read_reg card "GEM_AMC.GEM_SYSTEM.RELEASE.MAJOR"
    if iFWVersion == 1 || iFWVersion == 3
        then pure tt
        else set_error (text "Unexpected value for system release major!")
    pure iFWVersion

  -- The loop over the VFATs from `vfatN` on, `left` of them.
  unfoldable pub mask_vfats : ℕ → ℕ → ℕ → ℕ → M S ℕ
  mask_vfats ohN vfatN zero mask = pure mask
  mask_vfats ohN vfatN (suc left) mask = read_reg card (sync_err_cnt ohN vfatN) >>= (λ syncErrCnt.
      mask_vfats ohN (vfatN + 1) left
        (if ltb 0 syncErrCnt then (mask + 2 ^ vfatN) % 2 ^ 32 else mask))

  unfoldable pub get_oh_vfat_mask_local : ℕ → M S ℕ
  get_oh_vfat_mask_local ohN = mask_vfats ohN 0 24 0

  unfoldable pub get_oh_vfat_mask : Request → M S (Unit {0})
  get_oh_vfat_mask request = do
    vfatMask ← get_oh_vfat_mask_local (get_word request "ohN")
    respond (set_word "vfatMask" vfatMask)

  -- `ohVfatMaskArray[ohN] = …`, in an array of twelve words.
  unfoldable pub store_mask : List ℕ → ℕ → ℕ → M S (List ℕ)
  store_mask array ohN v = if ltb ohN 12 then pure (set array ohN v) else stop fault

  -- The mask of one OptoHybrid: all ones if it is masked itself.
  unfoldable pub mask_of_link : ℕ → ℕ → M S ℕ
  mask_of_link ohMask ohN =
      if bit ohN ohMask == 1 then get_oh_vfat_mask_local ohN else pure 0xffffff

  -- The loop over the OptoHybrids from `ohN` on, `left` of them.
  unfoldable pub mask_links : ℕ → ℕ → ℕ → List ℕ → M S (List ℕ)
  mask_links ohMask ohN zero array = pure array
  mask_links ohMask ohN (suc left) array =
      mask_of_link ohMask ohN >>= (λ v. store_mask array ohN v >>= mask_links ohMask (ohN + 1) left)

  -- `NOH`: the request's, unless that is larger than the register's.
  unfoldable pub requested_noh : Request → ℕ → ℕ
  requested_noh request noh =
      if request.key_exists "NOH" && leb (get_word request "NOH") noh
      then get_word request "NOH"
      else noh

  unfoldable pub requested_mask : Request → ℕ
  requested_mask request = if request.key_exists "ohMask" then get_word request "ohMask" else 0xfff

  -- `array` is what the twelve words of the stack hold before: the source does not initialise them.
  unfoldable pub get_oh_vfat_mask_multi_link : List ℕ → Request → M S (Unit {0})
  get_oh_vfat_mask_multi_link array request = do
    noh ← read_reg card "GEM_AMC.GEM_SYSTEM.CONFIG.NUM_OF_OH"
    masks ← mask_links (requested_mask request) 0 (requested_noh request noh) array
    respond (set_word_array "ohVfatMaskArray" masks)
