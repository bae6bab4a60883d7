-- ===== src/Sca/Handlers.antt =====
-- The RPC methods of src/amc/sca.cpp. A mask of links is cut to `uint16_t`; what the two reading
-- methods get is dropped, no reply is set.
use ctp7_modules.Prelude.{ℕ, ◌%◌, ◌^◌, String, Bool, not, ◌==◌}
use ctp7_modules.Effect.{Card, M, Request, get_word, pure, ◌>>◌}
use ctp7_modules.Sca.Command.{
  sca_module_reset, read_sca_chip_id, read_sca_seu_counter, reset_sca_seu_counter,
}

abbrev mask_of : Request → ℕ
mask_of request = get_word request "ohMask" % 2 ^ 16

-- `bool x = request->get_word(key)`
abbrev flag : Request → String → Bool
flag request key = not (get_word request key == 0)

module _ {S : Type 0} (card : Card S) where
  unfoldable pub sca_module_reset_method : Request → M S (Unit {0})
  sca_module_reset_method request = sca_module_reset card (mask_of request)

  unfoldable pub read_sca_chip_id_method : Request → M S (Unit {0})
  read_sca_chip_id_method request = do
    read_sca_chip_id card (mask_of request) (flag request "scaV1")
    pure tt

  unfoldable pub read_sca_seu_counter_method : Request → M S (Unit {0})
  read_sca_seu_counter_method request = do
    read_sca_seu_counter card (mask_of request) (flag request "reset")
    pure tt

  unfoldable pub reset_sca_seu_counter_method : Request → M S (Unit {0})
  reset_sca_seu_counter_method request = reset_sca_seu_counter card (mask_of request)
