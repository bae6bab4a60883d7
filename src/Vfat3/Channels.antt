-- ===== src/Vfat3/Channels.antt =====
-- src/vfat3.cpp: the 128 channel registers of each VFAT.
pub mod Laws
use ctp7_modules.Prelude.{
  ℕ, zero, suc, ◌+◌, ◌*◌, ◌%◌, ◌^◌, String, List, [], ◌∷◌, ◌++◌, Bool, true, false, ltb, ◌==◌,
  if◌then◌else◌, get_or, set, length, drop,
}
use ctp7_modules.Prelude.Bits.{bit}
use ctp7_modules.Effect.{
  Card, M, Request, get_word, Message, fmt, fault, set_word_array, pure, stop, ◌>>=◌, ◌>>◌, respond,
  set_error, sleep_for,
}
use ctp7_modules.Names.{decimal, ◌◇◌}
use ctp7_modules.Loops.{until_selected, until_done}
use ctp7_modules.Register.{get_address, read_raw_address, write_raw_address}
use ctp7_modules.Optohybrid.Broadcast.{vfat_reg}
use ctp7_modules.Vfat3.Sync.{not_mask, vfat_sync_check_local}

abbrev pub channel_name : ℕ → ℕ → ℕ → String
channel_name ohN vfatN chan = vfat_reg ohN vfatN ("VFAT_CHANNELS.CHANNEL" ◇ decimal chan)

abbrev pub not_synced_vfat : ℕ → ℕ → ℕ → Message
not_synced_vfat goodVFATs vfatN vfatMask =
    fmt "The requested VFAT is not synced; goodVFATs: %x\t requested VFAT: %i; maskOh: %x"
      (goodVFATs ∷ vfatN ∷ vfatMask ∷ [])

abbrev pub bad_arming_trim : ℕ → ℕ → ℕ → Message
bad_arming_trim vfatN chan trim =
    fmt
      "arming comparator trim value must be positive in range [0x0,0x3F]. Value given for VFAT%i chan %i: %x"
      (vfatN ∷ chan ∷ trim ∷ [])

abbrev pub bad_crossing_trim : ℕ → ℕ → ℕ → Message
bad_crossing_trim vfatN chan trim =
    fmt
      "zero crossing comparator trim value must be positive in range [0x0,0x3F]. Value given for VFAT%i chan %i: %x"
      (vfatN ∷ chan ∷ trim ∷ [])

-- The fields of one channel register, words of the request.
pub record Channel : Type 0 where
  pub cal_enable : ℕ
  pub mask : ℕ
  pub trim_arm : ℕ
  pub trim_arm_pol : ℕ
  pub trim_zcc : ℕ
  pub trim_zcc_pol : ℕ

-- `chanRegVal`: the shifted fields are added in 32 bits.
unfoldable pub chan_reg_val : Channel → ℕ
chan_reg_val c =
    (c.cal_enable * 2 ^ 15
      + c.mask * 2 ^ 14
      + c.trim_zcc_pol * 2 ^ 13
      + c.trim_zcc * 2 ^ 7
      + c.trim_arm_pol * 2 ^ 6
      + c.trim_arm)
    % 2 ^ 32

-- `uint32_t a[3072]; request->get_word_array(key, a);`, with what the stack held before. The copy
-- has no bound.
unfoldable pub word_buffer : {S : Type 0} → (String → List ℕ) → Request → String → M S (List ℕ)
word_buffer stack request key =
    let words = request.word_array key in
    if ltb 3072 (length words) then stop fault else pure (words ++ drop (length words) (stack key))

module _ {S : Type 0} (card : Card S) where
  -- The check of one VFAT that the three loops begin with: `go` is the rest of the round.
  unfoldable pub if_synced : ℕ → ℕ → ℕ → M S Bool → M S Bool
  if_synced ohN vfatMask vfatN go = do
    goodVFATs ← vfat_sync_check_local card ohN
    if bit vfatN goodVFATs == 1
        then go
        else (set_error (not_synced_vfat goodVFATs vfatN vfatMask) >> pure true)

  unfoldable pub write_channel : ℕ → ℕ → ℕ → ℕ → M S (Unit {0})
  write_channel ohN vfatN chan value = do
    chanAddr ← get_address card (channel_name ohN vfatN chan)
    write_raw_address card chanAddr value
    sleep_for card 200_000

  unfoldable pub read_channel : ℕ → ℕ → ℕ → M S ℕ
  read_channel ohN vfatN chan = do
    chanAddr ← get_address card (channel_name ohN vfatN chan)
    v ← read_raw_address card chanAddr
    sleep_for card 200_000
    pure v

  -- The loop over the channels from `chan` on, `left` of them, into the array.
  unfoldable pub read_channels : ℕ → ℕ → ℕ → ℕ → List ℕ → M S (List ℕ)
  read_channels ohN vfatN chan zero chanRegData = pure chanRegData
  read_channels ohN vfatN chan (suc left) chanRegData =
      read_channel ohN vfatN chan
      >>= (λ v. read_channels ohN vfatN (chan + 1) left (set chanRegData (vfatN * 128 + chan) v))

  -- One VFAT that is not masked: the array behind it, and if the function ends here.
  unfoldable pub read_vfat_channels : ℕ → ℕ → ℕ → List ℕ → M S (Bool × List ℕ)
  read_vfat_channels ohN vfatMask vfatN chanRegData = do
    goodVFATs ← vfat_sync_check_local card ohN
    if bit vfatN goodVFATs == 1
        then (read_channels ohN vfatN 0 128 chanRegData >>= (λ a. pure (false, a)))
        else (set_error (not_synced_vfat goodVFATs vfatN vfatMask) >> pure (true, chanRegData))

  unfoldable pub read_all_channels : ℕ → ℕ → ℕ → ℕ → List ℕ → M S (List ℕ)
  read_all_channels ohN vfatMask vfatN zero chanRegData = pure chanRegData
  read_all_channels ohN vfatMask vfatN (suc left) chanRegData =
      (if bit vfatN (not_mask vfatMask) == 1
        then read_vfat_channels ohN vfatMask vfatN chanRegData
        else pure (false, chanRegData))
      >>= (λ r. elim r.0 [
        | true ↦ pure r.1
        | false ↦ read_all_channels ohN vfatMask (vfatN + 1) left r.1
      ])

  unfoldable pub get_channel_registers_local : ℕ → ℕ → List ℕ → M S (List ℕ)
  get_channel_registers_local ohN vfatMask chanRegData =
      read_all_channels ohN vfatMask 0 24 chanRegData

  unfoldable pub get_channel_registers : (String → List ℕ) → Request → M S (Unit {0})
  get_channel_registers stack request = do
    chanRegData ←
        get_channel_registers_local (get_word request "ohN") (get_word request "vfatMask")
          (stack "chanRegData")
    respond (set_word_array "chanRegData" chanRegData)

  -- A round of the loop of `setChannelRegistersVFAT3SimpleLocal`.
  unfoldable pub write_word_of : List ℕ → ℕ → ℕ → ℕ → M S Bool
  write_word_of chanRegData ohN vfatN chan =
      write_channel ohN vfatN chan (get_or chanRegData (vfatN * 128 + chan) 0) >> pure false

  unfoldable pub set_channel_registers_simple_local : ℕ → ℕ → List ℕ → M S (Unit {0})
  set_channel_registers_simple_local ohN vfatMask chanRegData = do
    until_selected
        (λ vfatN.
          if_synced ohN vfatMask vfatN (until_done (write_word_of chanRegData ohN vfatN) 0 128))
        (not_mask vfatMask) 0 24
    pure tt

  -- A round of the loop of `setChannelRegistersVFAT3Local`: a trim out of range ends the function.
  unfoldable pub write_fields_of : (ℕ → Channel) → ℕ → ℕ → ℕ → M S Bool
  write_fields_of channels ohN vfatN chan =
      let c = channels (vfatN * 128 + chan) in
      get_address card (channel_name ohN vfatN chan) >>= (λ chanAddr.
        if ltb 0x3f c.trim_arm
        then set_error (bad_arming_trim vfatN chan c.trim_arm) >> pure true
        else if ltb 0x3f c.trim_zcc
        then set_error (bad_crossing_trim vfatN chan c.trim_zcc) >> pure true
        else write_raw_address card chanAddr (chan_reg_val c)
          >> sleep_for card 200_000
          >> pure false)

  unfoldable pub set_channel_registers_local : ℕ → ℕ → (ℕ → Channel) → M S (Unit {0})
  set_channel_registers_local ohN vfatMask channels = do
    until_selected
        (λ vfatN.
          if_synced ohN vfatMask vfatN (until_done (write_fields_of channels ohN vfatN) 0 128))
        (not_mask vfatMask) 0 24
    pure tt

  -- The RPC method, with a single array or with one for each field.
  unfoldable pub set_channel_registers : (String → List ℕ) → Request → M S (Unit {0})
  set_channel_registers stack request =
      if request.key_exists "simple"
      then (do
        chanRegData ← word_buffer stack request "chanRegData"
        set_channel_registers_simple_local (get_word request "ohN") (get_word request "vfatMask")
            chanRegData)
      else (do
        calEnable ← word_buffer stack request "calEnable"
        masks ← word_buffer stack request "masks"
        trimARM ← word_buffer stack request "trimARM"
        trimARMPol ← word_buffer stack request "trimARMPol"
        trimZCC ← word_buffer stack request "trimZCC"
        trimZCCPol ← word_buffer stack request "trimZCCPol"
        set_channel_registers_local (get_word request "ohN") (get_word request "vfatMask") (λ idx.
            record {
              cal_enable = get_or calEnable idx 0;
              mask = get_or masks idx 0;
              trim_arm = get_or trimARM idx 0;
              trim_arm_pol = get_or trimARMPol idx 0;
              trim_zcc = get_or trimZCC idx 0;
              trim_zcc_pol = get_or trimZCCPol idx 0;
            }))
