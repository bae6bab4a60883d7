-- ===== src/Register/Report.antt =====
-- `for (auto & reg : regs) la->response->set_word(base + reg, readReg(la, base + reg));`, the loop
-- of the status functions of the modules.
use ctp7_modules.Prelude.{String, List, [], ◌∷◌}
use ctp7_modules.Effect.{Card, M, set_word, pure, ◌>>=◌, ◌>>◌, respond}
use ctp7_modules.Names.{◌◇◌}
use ctp7_modules.Register.Access.{read_reg}

module _ {S : Type 0} (card : Card S) where
  unfoldable pub report : String → List String → M S (Unit {0})
  report base [] = pure tt
  report base (reg ∷ rest) =
      read_reg card (base ◇ reg) >>= (λ v. respond (set_word (base ◇ reg) v) >> report base rest)
