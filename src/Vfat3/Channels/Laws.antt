-- ===== src/Vfat3/Channels/Laws.antt =====
-- The fields of a channel register, the registers there and back, and the trims that are refused.
use ctp7_modules.Prelude.{
  ℕ, suc, ◌+◌, ◌*◌, ◌/◌, ◌%◌, ◌^◌, ◌<◌, ◌≤◌, Bool, true, false, ltb, if◌then◌else◌, ◌≡◌, refl, ap,
  ◌∙◌, arith, ◌⊎◌, inl, inr, lt→ltb,
}
use ctp7_modules.Effect.{
  Card, M, World, Message, pure, set_error, sleep_for, continue, continue_assoc, ◌>>=◌, ◌>>◌,
}
use ctp7_modules.Loops.{until_done, unless_ended}
use ctp7_modules.Loops.Laws.{until_done-split}
use ctp7_modules.Register.{get_address, write_raw_address}
use ctp7_modules.Vfat3.Channels.{
  Channel, chan_reg_val, channel_name, bad_arming_trim, bad_crossing_trim, write_fields_of,
}

-- From a channel register that is packed from two trims of six bits and four single bits, each
-- field comes back by its shift and width.
pub chan_reg_val-fields :
    (c : Channel)
    → c.cal_enable < 2
    → c.mask < 2
    → c.trim_arm ≤ 0x3f
    → c.trim_arm_pol < 2
    → c.trim_zcc ≤ 0x3f
    → c.trim_zcc_pol < 2
    → (chan_reg_val c / 2 ^ 15 ≡ c.cal_enable)
      × (chan_reg_val c / 2 ^ 14 % 2 ≡ c.mask)
      × (chan_reg_val c / 2 ^ 13 % 2 ≡ c.trim_zcc_pol)
      × (chan_reg_val c / 2 ^ 7 % 2 ^ 6 ≡ c.trim_zcc)
      × (chan_reg_val c / 2 ^ 6 % 2 ≡ c.trim_arm_pol)
      × (chan_reg_val c % 2 ^ 6 ≡ c.trim_arm)
unfolding chan_reg_val
chan_reg_val-fields c cal mask arm arm_pol zcc zcc_pol =
    (omega arith, omega arith, omega arith, omega arith, omega arith, omega arith)

-- A mask of 2 is not refused: it switches the calibration pulse.
pub chan_reg_val-mask_carry :
    (c : Channel)
    → chan_reg_val (record c { mask = c.mask + 2 })
      ≡ chan_reg_val (record c { cal_enable = c.cal_enable + 1 })
unfolding chan_reg_val
chan_reg_val-mask_carry c = ap (λ (n : ℕ). n % 2 ^ 32) (omega arith)

-- What is said of the first trim that is out of range.
abbrev trim_message : ℕ → ℕ → Channel → Message
trim_message vfatN chan c =
    if ltb 0x3f c.trim_arm
    then bad_arming_trim vfatN chan c.trim_arm
    else bad_crossing_trim vfatN chan c.trim_zcc

out_of_range :
    (c : Channel)
    → (0x3f < c.trim_arm) ⊎ (0x3f < c.trim_zcc)
    → (ltb 0x3f c.trim_arm ≡ true) ⊎ (ltb 0x3f c.trim_zcc ≡ true)
out_of_range c (inl h) = inl (lt→ltb _ _ h)
out_of_range c (inr h) = inr (lt→ltb _ _ h)

module _ {S : Type 0} (card : Card S) (channels : ℕ → Channel) (ohN vfatN : ℕ) where
  -- The end of the function at a channel with a trim that is out of range.
  abbrev refusal : ℕ → M S Bool
  refusal chan =
      get_address card (channel_name ohN vfatN chan)
      >> (set_error (trim_message vfatN chan (channels (vfatN * 128 + chan))) >> pure true)

  refused_by :
      (a z : Bool) (arming crossing : Message) (go : M S Bool)
      → (a ≡ true) ⊎ (z ≡ true)
      → (u : World S)
      → (if a
            then set_error arming >> pure true
            else if z
            then set_error crossing >> pure true
            else go)
          u
        ≡ (set_error (if a then arming else crossing) >> pure true) u
  refused_by true z arming crossing go bad u = refl
  refused_by false true arming crossing go bad u = refl
  refused_by false false arming crossing go (inl e) u = cc
  refused_by false false arming crossing go (inr e) u = cc

  refuses_here :
      (chan : ℕ) (w : World S)
      → (0x3f < (channels (vfatN * 128 + chan)).trim_arm)
        ⊎ (0x3f < (channels (vfatN * 128 + chan)).trim_zcc)
      → write_fields_of card channels ohN vfatN chan w ≡ refusal chan w
  unfolding write_fields_of
  refuses_here chan w bad j =
      let c = channels (vfatN * 128 + chan) in
      continue (get_address card (channel_name ohN vfatN chan) w) (λ chanAddr u.
        refused_by (ltb 0x3f c.trim_arm) (ltb 0x3f c.trim_zcc)
          (bad_arming_trim vfatN chan c.trim_arm) (bad_crossing_trim vfatN chan c.trim_zcc)
          (write_raw_address card chanAddr (chan_reg_val c) >> sleep_for card 200_000 >> pure false)
          (out_of_range c bad) u j)

  -- At the first channel behind n others whose trim is above 0x3f, the loop of
  -- setChannelRegistersVFAT3Local over the channels does what it does for the n channels in front,
  -- and then, if they did not end it, looks the address up, reports the trim and ends the
  -- function: no channel from there on is written.
  pub write_fields_of-refuses :
      (n more chan : ℕ) (w : World S)
      → (0x3f < (channels (vfatN * 128 + (chan + n))).trim_arm)
        ⊎ (0x3f < (channels (vfatN * 128 + (chan + n))).trim_zcc)
      → until_done (write_fields_of card channels ohN vfatN) chan (n + suc more) w
        ≡ (until_done (write_fields_of card channels ohN vfatN) chan n
              >>= (λ ended. unless_ended ended (refusal (chan + n))))
            w
  unfolding until_done
  write_fields_of-refuses n more chan w bad =
      until_done-split (write_fields_of card channels ohN vfatN) n (suc more) chan (chan + n) refl w
      ∙ (λ j.
          continue (until_done (write_fields_of card channels ohN vfatN) chan n w)
            (λ ended u. at_channel ended u j))
    where
      at_channel :
          (ended : Bool) (u : World S)
          → unless_ended ended
              (until_done (write_fields_of card channels ohN vfatN) (chan + n) (suc more))
              u
            ≡ unless_ended ended (refusal (chan + n)) u
      at_channel true u = refl
      at_channel false u =
          ap
            (λ o. continue o (λ ended.
              unless_ended ended
                (until_done (write_fields_of card channels ohN vfatN) (chan + n + 1) more)))
            (refuses_here (chan + n) u bad)
          ∙ continue_assoc (get_address card (channel_name ohN vfatN (chan + n)) u) _ _
