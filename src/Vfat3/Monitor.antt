-- ===== src/Vfat3/Monitor.antt =====
-- src/vfat3.cpp: the selection of a DAC for the monitoring ADC, and the reads of that ADC.
pub mod Laws
use ctp7_modules.Prelude.{
  ℕ, zero, suc, ◌+◌, ◌*◌, ◌%◌, ◌^◌, String, List, [], ◌∷◌, ◌++◌, Bool, ltb, ◌==◌, if◌then◌else◌,
  get_or, take, drop, replicate,
}
use ctp7_modules.Prelude.Bits.{bit}
use ctp7_modules.Effect.{
  Card, M, Request, flag, get_word, fault, set_word_array, pure, stop, ◌>>=◌, ◌>>◌, respond,
  sleep_for,
}
use ctp7_modules.Loops.{for_selected, for_links}
use ctp7_modules.Register.{read_reg, write_reg}
use ctp7_modules.Amc.Mask.{get_oh_vfat_mask_local, requested_noh}
use ctp7_modules.Optohybrid.Broadcast.{vfat_reg, broadcast_read_local}
use ctp7_modules.Vfat3.Sync.{with_synced}

-- The register CFG_4: `(vref << 8) + (gain << 7) + dacSelect` in 32 bits.
unfoldable pub glb_ctr_4 : ℕ → ℕ → ℕ → ℕ
glb_ctr_4 vref gain dacSelect = (vref * 2 ^ 8 % 2 ^ 32 + gain * 2 ^ 7 % 2 ^ 32 + dacSelect) % 2 ^ 32

-- `std::copy(adcData, adcData+24, adcDataAll+(24*ohN))`, into 12 * 24 words.
unfoldable pub copy_adc : {S : Type 0} → List ℕ → ℕ → List ℕ → M S (List ℕ)
copy_adc adcDataAll ohN adcData =
    if ltb ohN 12
    then pure (take (24 * ohN) adcDataAll ++ adcData ++ drop (24 * ohN + 24) adcDataAll)
    else stop fault

module _ {S : Type 0} (card : Card S) where
  unfoldable pub select_dacs : ℕ → ℕ → List ℕ → List ℕ → ℕ → M S (Unit {0})
  select_dacs ohN dacSelect vrefs gains notmask =
      for_selected
        (λ vfatN.
          write_reg card (vfat_reg ohN vfatN "CFG_4")
            (glb_ctr_4 (get_or vrefs vfatN 0) (get_or gains vfatN 0) dacSelect))
        notmask 0 24

  unfoldable pub configure_dac_monitor_local : ℕ → ℕ → ℕ → M S (Unit {0})
  configure_dac_monitor_local ohN mask dacSelect = with_synced card ohN mask (λ notmask. do
    adcVRefValues ← broadcast_read_local card ohN "CFG_VREF_ADC" mask
    monitorGainValues ← broadcast_read_local card ohN "CFG_MON_GAIN" mask
    select_dacs ohN dacSelect adcVRefValues monitorGainValues notmask)

  -- The RPC methods `configureVFAT3DacMonitor` and `configureVFAT3DacMonitorMultiLink`.
  unfoldable pub configure_dac_monitor : Request → M S (Unit {0})
  configure_dac_monitor request =
      configure_dac_monitor_local (get_word request "ohN") (get_word request "vfatMask")
        (get_word request "dacSelect")

  unfoldable pub configure_dac_monitor_multi_link : Request → M S (Unit {0})
  configure_dac_monitor_multi_link request = do
    noh ← read_reg card "GEM_AMC.GEM_SYSTEM.CONFIG.NUM_OF_OH"
    for_links
        (λ ohN. do
          vfatMask ← get_oh_vfat_mask_local card ohN
          configure_dac_monitor_local ohN vfatMask (get_word request "dacSelect"))
        (get_word request "ohMask") 0 (requested_noh card request noh)

  -- The first broadcast starts the conversion, and what it reads is overwritten.
  unfoldable pub read_adc_local : ℕ → Bool → ℕ → M S (List ℕ)
  read_adc_local ohN useExtRefADC mask = do
    broadcast_read_local card ohN (if useExtRefADC then "ADC1_UPDATE" else "ADC0_UPDATE") mask
    sleep_for card 20_000
    broadcast_read_local card ohN (if useExtRefADC then "ADC1_CACHED" else "ADC0_CACHED") mask

  unfoldable pub read_adc : Request → M S (Unit {0})
  read_adc request = do
    adcData ←
        read_adc_local (get_word request "ohN") (flag request "useExtRefADC")
          (get_word request "vfatMask")
    respond (set_word_array "adcData" adcData)

  -- One OptoHybrid of `readVFAT3ADCMultiLink`.
  unfoldable pub read_adc_link : Bool → ℕ → List ℕ → M S (List ℕ)
  read_adc_link useExtRefADC ohN adcDataAll = do
    vfatMask ← get_oh_vfat_mask_local card ohN
    adcData ← read_adc_local ohN useExtRefADC vfatMask
    copy_adc adcDataAll ohN adcData

  -- A shift of the mask by 32 bits or more is undefined.
  unfoldable pub read_adc_if : Bool → ℕ → ℕ → List ℕ → M S (List ℕ)
  read_adc_if useExtRefADC ohMask ohN adcDataAll =
      if ltb ohN 32
      then (if bit ohN ohMask == 1
          then read_adc_link useExtRefADC ohN adcDataAll
          else pure adcDataAll)
      else stop fault

  unfoldable pub read_adc_links : Bool → ℕ → ℕ → ℕ → List ℕ → M S (List ℕ)
  read_adc_links useExtRefADC ohMask ohN zero adcDataAll = pure adcDataAll
  read_adc_links useExtRefADC ohMask ohN (suc left) adcDataAll =
      read_adc_if useExtRefADC ohMask ohN adcDataAll
      >>= read_adc_links useExtRefADC ohMask (ohN + 1) left

  unfoldable pub read_adc_multi_link : Request → M S (Unit {0})
  read_adc_multi_link request = do
    noh ← read_reg card "GEM_AMC.GEM_SYSTEM.CONFIG.NUM_OF_OH"
    adcDataAll ←
        read_adc_links (flag request "useExtRefADC") (get_word request "ohMask") 0
          (requested_noh card request noh) (replicate 288 0)
    respond (set_word_array "adcDataAll" adcDataAll)
