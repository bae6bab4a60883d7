-- ===== src/Examples/Boards.antt =====
-- The theorems on whole functions of the board, applied.
use ctp7_modules.Prelude.{[], ◌∷◌, ◌≢◌, arith}
use ctp7_modules.Effect.{idle, ok}
use ctp7_modules.Amc.Mask.{mask_links}
use ctp7_modules.Amc.Mask.Laws.{mask_links-overflow}
use ctp7_modules.Examples.Board.{memory, board, filled}

mask_links-overflow_example :
    (mask_links (board memory) 0 0 13 (7 ∷ 7 ∷ []) (idle (filled 3) [])).0 ≢ ok []
mask_links-overflow_example =
    mask_links-overflow (board memory) 0 0 13 (7 ∷ 7 ∷ []) (idle (filled 3) []) [] (omega arith)
      (omega arith)
