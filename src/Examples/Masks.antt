-- ===== src/Examples/Masks.antt =====
-- The masking of the channels of one VFAT, on a board that has their registers.
use ctp7_modules.Prelude.{
  ℕ, ◌<◌, String, List, [], true, tabulate, ◌==◌, if◌then◌else◌, ◌≡◌, ◌≢◌, refl, arith,
  all_below-at, ==_iff,
}
use ctp7_modules.Effect.{ok, idle}
use ctp7_modules.Names.{int_decimal, decimal}
use ctp7_modules.AddressTable.{Node}
use ctp7_modules.Register.Ram.{ram_card-Ram}
use ctp7_modules.Register.File.{IsPlain}
use ctp7_modules.Calibration.{channel_field, set_single_chan_mask, apply_chan_mask}
use ctp7_modules.Calibration.Laws.{Channels, mask_channels-words, set_single_chan_mask-apply}
use ctp7_modules.Examples.Board.{filled}
use ctp7_modules.Examples.Named.{position, knows, node_at, named_table, named_board, named-IsPlain}

abbrev mask_names : List String
mask_names = tabulate 0 128 (λ c. channel_field 0 5 c "MASK")

mask_position : (c : ℕ) → c < 128 → position mask_names (channel_field 0 5 c "MASK") ≡ c
unfolding int_decimal decimal
mask_position c lt =
    (==_iff _ _).0
      (all_below-at 128 (λ c. position mask_names (channel_field 0 5 c "MASK") == c) c refl lt)

mask_known : (c : ℕ) → c < 128 → knows mask_names (channel_field 0 5 c "MASK") ≡ true
unfolding int_decimal decimal
mask_known c lt = all_below-at 128 (λ c. knows mask_names (channel_field 0 5 c "MASK")) c refl lt

abbrev mask_node : ℕ → Node
mask_node c = node_at (position mask_names (channel_field 0 5 c "MASK"))

mask_node-IsPlain :
    (c : ℕ) → c < 128 → IsPlain (named_board mask_names) (channel_field 0 5 c "MASK") (mask_node c)
mask_node-IsPlain c lt =
    named-IsPlain mask_names (omega arith) (channel_field 0 5 c "MASK") (mask_known c lt)

mask_names-Channels : Channels (named_board mask_names) 0 5 mask_node
mask_names-Channels = record {
  entry = λ c lt. (mask_node-IsPlain c lt).entry;
  found = λ c lt. (mask_node-IsPlain c lt).found;
  readable = λ c lt. (mask_node-IsPlain c lt).readable;
  apart = λ c d lt lt' ne same. ne (omega (arith, mask_position c lt, mask_position d lt', same));
}

abbrev masked :
    (m : List (ℕ × ℕ)) × (h' : ℕ → ℕ) × (set_single_chan_mask
        (named_board mask_names)
        0
        5
        3
        (idle (filled 7) [])
      ≡ (ok m, idle h' []))
unfolding set_single_chan_mask
masked =
    let (m, h', run, inside, outside, kept, others) =
      mask_channels-words (named_board mask_names) (ram_card-Ram (named_table mask_names)) 0 5
        mask_node mask_names-Channels 3 128 0 [] (filled 7) [] (omega arith) in
    (m, h', run)

set_single_chan_mask-apply_example :
    ((c : ℕ) → c < 128 → masked.1 (mask_node c).real_address ≡ (if 3 == c then 0 else 1))
    × (h'' : ℕ → ℕ) × (apply_chan_mask (named_board mask_names) masked.0 (idle masked.1 [])
        ≡ (ok tt, idle h'' []))
    × ((c : ℕ) → c < 128 → h'' (mask_node c).real_address ≡ 7)
    × ((a : ℕ) → ((c : ℕ) → c < 128 → (mask_node c).real_address ≢ a) → h'' a ≡ 7)
set_single_chan_mask-apply_example =
    set_single_chan_mask-apply (named_board mask_names) (ram_card-Ram (named_table mask_names)) 0 5
      mask_node mask_names-Channels 3 (filled 7) masked.1 [] masked.0 masked.0 masked.2 (λ a. refl)
