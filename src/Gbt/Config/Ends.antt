-- ===== src/Gbt/Config/Ends.antt =====
-- Writing a phase, in src/gbt.cpp, as a step that ends.
use ctp7_modules.Prelude.{ℕ, List, [], ◌∷◌, Bool, true, false, ltb, le→ltb_false, ◌≡◌, refl, arith}
use ctp7_modules.Effect.{Card, M}
use ctp7_modules.Effect.Ends.{Ends, bind-Ends, if-Ends, bool-Ends, pure-Ends, respond-Ends}
use ctp7_modules.Register.Ends.{read_reg-Ends, write_reg-Ends}
use ctp7_modules.Constants.{phase_min, phase_max}
use ctp7_modules.Gbt.Config.{
  emit_error, phase_message, check_phase, send_gbt_reg, write_gbt_reg, write_phase_regs, with_oh,
  write_gbt_phase_local,
}

ruleset steps =
    (bind-Ends, if-Ends, bool-Ends, pure-Ends, respond-Ends, read_reg-Ends, write_reg-Ends)

pub check_phase-Ends : {S : Type 0} (phase : ℕ) → Ends (check_phase {S = S} phase)
unfolding check_phase
check_phase-Ends phase = search steps depth 8

pub check_phase_high :
    {S : Type 0} (phase : ℕ)
    → ltb phase_max phase ≡ true
    → check_phase {S = S} phase ≡ emit_error (phase_message phase)
unfolding check_phase
check_phase_high phase high = rw (le→ltb_false phase phase_min (omega arith), high) refl

module _ {S : Type 0} (card : Card S) where
  send_gbt_reg-Ends : (link a v : ℕ) → Ends (send_gbt_reg card link a v)
  unfolding send_gbt_reg
  send_gbt_reg-Ends link a v = search steps depth 8

  write_gbt_reg-Ends : (oh gbt a v : ℕ) → Ends (write_gbt_reg card oh gbt a v)
  unfolding write_gbt_reg
  write_gbt_reg-Ends oh gbt a v = search (steps, send_gbt_reg-Ends) depth 8

  write_phase_regs-Ends :
      (oh gbt : ℕ) (l : List ℕ) (v : ℕ) → Ends (write_phase_regs card oh gbt l v)
  unfolding write_phase_regs
  write_phase_regs-Ends oh gbt [] v = pure-Ends false
  write_phase_regs-Ends oh gbt (a ∷ l) v =
      let ih = write_phase_regs-Ends oh gbt l v in
      bind-Ends _ _ (write_gbt_reg-Ends oh gbt a v)
        (λ failed. bool-Ends failed _ _ (pure-Ends true) ih)

  pub with_oh-Ends : (oh : ℕ) (go : M S Bool) → Ends go → Ends (with_oh card oh go)
  unfolding with_oh
  with_oh-Ends oh go h = search steps depth 8

  pub write_gbt_phase_local-Ends : (oh vfat v : ℕ) → Ends (write_gbt_phase_local card oh vfat v)
  unfolding write_gbt_phase_local
  write_gbt_phase_local-Ends oh vfat v =
      search (steps, with_oh-Ends, check_phase-Ends, write_phase_regs-Ends) depth 8
