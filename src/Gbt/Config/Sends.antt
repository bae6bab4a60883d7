-- ===== src/Gbt/Config/Sends.antt =====
-- What a call of `writeGBTPhaseLocal` and `writeGBTConfigLocal` sends to the GBT, for parameters in
-- range, and what it refuses.
use mathlib.Core.Path.{fun_ext}
use ctp7_modules.Prelude.{
  ℕ, ◌+◌, ◌*◌, ◌%◌, ◌^◌, ◌<◌, ◌≤◌, List, [], ◌∷◌, Bool, true, false, ltb, leb, ◌≡◌, refl, arith,
  lt→leb_false, le→ltb_false, ◌⊎◌, inl, inr, Bool-cases, ◌∙◌, ap,
}
use ctp7_modules.Effect.{Card, M, World, Message, ok, pure, ◌>>=◌, ◌>>◌, set_string, continue_assoc}
use ctp7_modules.Register.{read_reg}
use ctp7_modules.Constants.{gbts_per_oh, gbt_config_size, vfats_per_oh, phase_max, phase_min}
use ctp7_modules.Gbt.Tables.{vfat_gbt, phase_registers}
use ctp7_modules.Gbt.Config.Laws.{register, three_parts, vfat-IsMapped}
use ctp7_modules.Gbt.Config.{
  oh_message, vfat_message, phase_message, check_phase, send_gbt_reg, write_gbt_reg,
  write_phase_regs, with_oh, write_gbt_phase_local,
}

module _ {S : Type 0} (card : Card S) where
  abbrev pub link : ℕ → ℕ → ℕ
  link ohN gbtN = (ohN * gbts_per_oh + gbtN) % 2 ^ 32

  -- An existing GBT and a writable address: the sequence is sent, and the result is `false`.
  write_gbt_reg_sends :
      (ohN gbtN address value : ℕ)
      → gbtN < gbts_per_oh
      → address < gbt_config_size
      → write_gbt_reg card ohN gbtN address value
        ≡ (send_gbt_reg card (link ohN gbtN) address value >> pure false)
  unfolding write_gbt_reg
  write_gbt_reg_sends ohN gbtN address value hg ha =
      rw (lt→leb_false gbtN gbts_per_oh hg, lt→leb_false address gbt_config_size ha) refl

  -- What the early return on an error leaves of a loop whose steps return `false`.
  send_then :
      (m : M S (Unit {0})) (rest : M S Bool)
      → ((m >> pure false) >>= (λ failed. elim failed [ true ↦ pure true | false ↦ rest ]))
        ≡ (m >> rest)
  send_then m rest = fun_ext (λ w. continue_assoc (m w) _ _)

  phase_reg_sends :
      (ohN gbtN a phase : ℕ) (rest : List ℕ)
      → gbtN < gbts_per_oh
      → a < gbt_config_size
      → write_phase_regs card ohN gbtN (a ∷ rest) phase
        ≡ (send_gbt_reg card (link ohN gbtN) a phase >> write_phase_regs card ohN gbtN rest phase)
  unfolding write_phase_regs
  phase_reg_sends ohN gbtN a phase rest hg ha = rw (write_gbt_reg_sends ohN gbtN a phase hg ha) (
      send_then (send_gbt_reg card (link ohN gbtN) a phase)
        (write_phase_regs card ohN gbtN rest phase))

  -- The three writes of one phase, in order.
  abbrev pub send_phase : ℕ → ℕ → ℕ → M S Bool
  send_phase ohN vfat phase = do
    send_gbt_reg card (link ohN (vfat_gbt vfat)) (register vfat 0) phase
    send_gbt_reg card (link ohN (vfat_gbt vfat)) (register vfat 1) phase
    send_gbt_reg card (link ohN (vfat_gbt vfat)) (register vfat 2) phase
    pure false

  write_phase_regs_sends :
      (ohN vfat phase : ℕ)
      → vfat < vfats_per_oh
      → write_phase_regs card ohN (vfat_gbt vfat) (phase_registers vfat) phase
        ≡ send_phase ohN vfat phase
  unfolding write_phase_regs
  write_phase_regs_sends ohN vfat phase hv =
      let (three, hg, h0, h1, h2) = vfat-IsMapped vfat hv in
      let g = vfat_gbt vfat in
      ap (λ l. write_phase_regs card ohN g l phase)
        (three_parts (phase_registers vfat) gbt_config_size three)
      ∙ phase_reg_sends ohN g (register vfat 0) phase (register vfat 1 ∷ register vfat 2 ∷ []) hg h0
      ∙ ap (λ k. send_gbt_reg card (link ohN g) (register vfat 0) phase >> k)
          (phase_reg_sends ohN g (register vfat 1) phase (register vfat 2 ∷ []) hg h1
            ∙ ap (λ k. send_gbt_reg card (link ohN g) (register vfat 1) phase >> k)
                (phase_reg_sends ohN g (register vfat 2) phase [] hg h2))

  -- In range, writeGBTPhaseLocal sends the phase to the three registers of the VFAT, on its GBT,
  -- and sends nothing else.
  pub write_gbt_phase_local_sends :
      (ohN vfat phase ohMax : ℕ) (w w' : World S)
      → read_reg card "GEM_AMC.GEM_SYSTEM.CONFIG.NUM_OF_OH" w ≡ (ok ohMax, w')
      → ohN < ohMax
      → vfat < vfats_per_oh
      → phase ≤ phase_max
      → write_gbt_phase_local card ohN vfat phase w ≡ send_phase ohN vfat phase w'
  unfolding write_gbt_phase_local with_oh check_phase
  write_gbt_phase_local_sends ohN vfat phase ohMax w w' known ho hv hp =
      rw
        (
          known,
          lt→leb_false ohN ohMax ho,
          lt→leb_false vfat vfats_per_oh hv,
          le→ltb_false phase phase_min (omega arith),
          le→ltb_false phase_max phase hp,
        )
        (ap (λ (m : M S Bool). m w') (write_phase_regs_sends ohN vfat phase hv))

  -- If the OptoHybrid, the VFAT or the phase is out of range, writeGBTPhaseLocal sends nothing: it
  -- returns true with one error set.
  pub write_gbt_phase_local_refuses :
      (ohN vfat phase ohMax : ℕ) (w w' : World S)
      → read_reg card "GEM_AMC.GEM_SYSTEM.CONFIG.NUM_OF_OH" w ≡ (ok ohMax, w')
      → (ohMax ≤ ohN) ⊎ (vfats_per_oh ≤ vfat) ⊎ (phase_max < phase)
      → (m : Message) × (write_gbt_phase_local card ohN vfat phase w
          ≡ (ok true, record w' { reply = set_string "error" m ∷ w'.reply }))
  unfolding write_gbt_phase_local with_oh check_phase
  write_gbt_phase_local_refuses ohN vfat phase ohMax w w' known out =
      elim (Bool-cases (leb ohMax ohN)) [
        | inl bad_oh ↦ (oh_message ohN ohMax, rw (known, bad_oh) refl)
        | inr good_oh ↦ elim (Bool-cases (leb vfats_per_oh vfat)) [
          | inl bad_vfat ↦ (vfat_message vfat, rw (known, good_oh, bad_vfat) refl)
          | inr good_vfat ↦
              let bad_phase : ltb phase_max phase ≡ true = ground arith in
              (
                phase_message phase,
                rw
                    (
                      known,
                      good_oh,
                      good_vfat,
                      le→ltb_false phase phase_min (omega arith),
                      bad_phase,
                    )
                    refl,
              )
        ]
      ]
