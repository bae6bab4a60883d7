-- ===== src/Examples/Chips.antt =====
-- The theorems on the VFAT3 chips, the DAQ module and the search for a phase, applied.
use mathlib.Core.Path.{fun_ext}
use ctp7_modules.Prelude.{
  ◌≢◌, ℕ, ◌+◌, ◌/◌, ◌%◌, ◌^◌, String, List, [], ◌∷◌, Bool, true, false, some, ◌==◌, if◌then◌else◌,
  tabulate, onto, ◌≡◌, inl, inr, refl, ap, ◌∙◌, arith,
}
use ctp7_modules.Prelude.Bits.{bit}
use ctp7_modules.Effect.{
  World, Outcome, Reply, Request, idle, ok, spinning, text, set_string, set_word, pure, ◌>>=◌, ◌>>◌,
  set_error,
}
use ctp7_modules.Register.{write_reg, get_address}
use ctp7_modules.AddressTable.{serialize}
use ctp7_modules.Register.Access.{contains_byte}
use ctp7_modules.Register.Ram.{ram_card-Ram}
use ctp7_modules.Register.File.{RegisterFile, IsPlain, write_plain}
use ctp7_modules.Amc.Mask.{sync_err_cnt, get_oh_vfat_mask_local}
use ctp7_modules.Loops.{until_done, unless_ended}
use ctp7_modules.Vfat3.Sync.{link_good, with_synced, not_mask, not_synced}
use ctp7_modules.Vfat3.Sync.Guard.{with_synced-refuses, with_synced-own_mask}
use ctp7_modules.Vfat3.Channels.{
  Channel, chan_reg_val, channel_name, write_fields_of, bad_crossing_trim,
}
use ctp7_modules.Vfat3.Channels.Laws.{chan_reg_val-fields, write_fields_of-refuses}
use ctp7_modules.Vfat3.ChipId.{ReedMuller, decode_chip_id, report_chip_ids}
use ctp7_modules.Vfat3.ChipId.Laws.{decode_chip_id-message, report_chip_ids-eq}
use ctp7_modules.Optohybrid.Broadcast.{vfat_reg}
use ctp7_modules.Ttc.{check_pll_lock_local, count_locks, try_lock, rounds}
use ctp7_modules.Ttc.Shift.{
  Mode, Search, decide, decide_bc0, decide_pll, find_best, turn_round, count_lock, end_shift,
  next_gth,
}
use ctp7_modules.Ttc.Shift.Laws.{decide-ended}
use ctp7_modules.Ttc.Phase.{
  shift_loop, shift_round, shift_once, look_at_locks, shifts_mmcm, take_turns, read_attempts,
  report_lock, repeat_shift, start,
}
use ctp7_modules.Ttc.Phase.Laws.{shift_enable, shift_count, report_lock-blind, repeat_shift-stuck}
use ctp7_modules.Register.File.{memory_file, value}
use ctp7_modules.Daq.Link.{enable_daq_module, configure_daq_module}
use ctp7_modules.Daq.Link.Laws.{HasDaq, enable_daq_module-disabled, configure_daq_module-configured}
use ctp7_modules.Examples.Board.{memory, memory-IsEntry, board, board_reads, filled}
use ctp7_modules.Examples.Named.{knows, named_board, named_file}

with_synced-refuses_example :
    (goodVFATs : ℕ) × (with_synced
        (board memory)
        5
        0xff000000
        (λ notmask. pure tt)
        (idle (filled 3) [])
      ≡ (
        ok tt,
        idle (filled 3) (set_string "error" (not_synced goodVFATs (not_mask 0xff000000)) ∷ []),
      ))
with_synced-refuses_example =
    with_synced-refuses (board memory) 5 (λ v. 3) (λ v. 3) (idle (filled 3) [])
      (λ v lt. board_reads 3 (link_good 5 v) []) (λ v lt. board_reads 3 (sync_err_cnt 5 v) [])
      0xff000000 7 (λ notmask. pure tt) (omega arith) (omega arith) (omega arith) refl

with_synced-own_mask_example :
    (mask : ℕ) × (get_oh_vfat_mask_local (board memory) 5 (idle (filled 3) [])
      ≡ (ok mask, idle (filled 3) []))
    × (with_synced (board memory) 5 mask (λ notmask. pure tt) (idle (filled 3) [])
        ≡ (ok tt, idle (filled 3) []))
with_synced-own_mask_example =
    with_synced-own_mask (board memory) 5 (λ v. 3) (λ v. 3) (idle (filled 3) [])
      (λ v lt. board_reads 3 (link_good 5 v) []) (λ v lt. board_reads 3 (sync_err_cnt 5 v) [])
      (λ notmask. pure tt) (λ i lt. omega arith)

abbrev a_channel : Channel
a_channel = record {
  cal_enable = 1;
  mask = 0;
  trim_arm = 17;
  trim_arm_pol = 1;
  trim_zcc = 63;
  trim_zcc_pol = 0;
}

chan_reg_val-fields_example :
    (chan_reg_val a_channel / 2 ^ 15 ≡ 1)
    × (chan_reg_val a_channel / 2 ^ 14 % 2 ≡ 0)
    × (chan_reg_val a_channel / 2 ^ 13 % 2 ≡ 0)
    × (chan_reg_val a_channel / 2 ^ 7 % 2 ^ 6 ≡ 63)
    × (chan_reg_val a_channel / 2 ^ 6 % 2 ≡ 1)
    × (chan_reg_val a_channel % 2 ^ 6 ≡ 17)
chan_reg_val-fields_example =
    chan_reg_val-fields a_channel (omega arith) (omega arith) (omega arith) (omega arith)
      (omega arith) (omega arith)

-- Channel 2 of VFAT 0 has a trim of 64.
abbrev trims : ℕ → Channel
trims idx = record a_channel { trim_zcc = if idx == 2 then 64 else 5 }

write_fields_of-refuses_example :
    until_done (write_fields_of (board memory) trims 1 0) 0 (2 + 126) (idle (filled 3) [])
    ≡ (until_done (write_fields_of (board memory) trims 1 0) 0 2 >>= (λ ended. unless_ended ended (
          get_address (board memory) (channel_name 1 0 2)
          >> (set_error (bad_crossing_trim 0 2 64) >> pure true))))
        (idle (filled 3) [])
write_fields_of-refuses_example =
    write_fields_of-refuses (board memory) trims 1 0 2 125 0 (idle (filled 3) [])
      (inr (omega arith))

-- A decoder without redundancy: the 16 low bits are the message.
abbrev plain_code : ReedMuller
plain_code = record { ready = true; n = 16; maxdecode = 0xffff; decode = λ bits. some bits }

decode_chip_id-message_example : decode_chip_id plain_code 0x1234 ≡ ok 0x1234
decode_chip_id-message_example =
    decode_chip_id-message plain_code 0x1234 0x1234 refl (omega arith) refl (omega arith)

report_chip_ids-eq_example :
    (word : ℕ → ℕ) × (report_chip_ids
        (board memory)
        plain_code
        1
        false
        0xfffff0
        0
        24
        (idle (filled 3) [])
      ≡ (
        ok tt,
        idle
            (filled 3)
            (onto (tabulate 0 24 (λ i. set_word (vfat_reg 1 i "HW_CHIP_ID") (word i))) []),
      ))
    × ((i : ℕ) → bit i 0xfffff0 ≡ 0 → word i ≡ 0xdeaddead)
    × ((i : ℕ) → bit i 0xfffff0 ≡ 1 → false ≡ true → word i ≡ 3)
    × ((i m : ℕ)
        → bit i 0xfffff0 ≡ 1
        → false ≡ false
        → decode_chip_id plain_code 3 ≡ ok m
        → word i ≡ m)
    × ((i : ℕ) → bit i 0xfffff0 ≡ 1 → ((m : ℕ) → decode_chip_id plain_code 3 ≢ ok m) → word i ≡ 3)
report_chip_ids-eq_example =
    report_chip_ids-eq (board memory) plain_code 1 0xfffff0 false (λ i. 3) (filled 3)
      (λ i lt r. board_reads 3 (vfat_reg 1 i "HW_CHIP_ID") r) []

abbrev blind : Mode
blind = record { relock = false; mode_bc0 = false; scan = false }

plain : (name : String) → IsPlain (board memory) name memory
unfolding contains_byte
plain name = record { entry = memory-IsEntry; found = refl; readable = refl; full = refl }

same_word : (b : Bool) → if◌then◌else◌ {A = ℕ} b 1 1 ≡ 1
same_word true = refl
same_word false = refl

-- A 1 that is written among ones.
writes_one :
    (name : String) (r : List Reply)
    → write_reg (board memory) name 1 (idle (filled 1) r) ≡ (ok tt, idle (filled 1) r)
writes_one name r =
    write_plain (board memory) (ram_card-Ram (λ name. some (serialize memory))) name memory
      (plain name) 1 (filled 1) r
    ∙ ap (λ h. (ok tt, idle h r)) (fun_ext (λ b. same_word (0x66000000 == b)))

-- One shift, on a board whose registers are all one word.
abbrev one_shift : Outcome (Unit {0}) × World (ℕ → ℕ)
one_shift =
    (shift_loop (board memory) 3 blind 1 (start 0 0) >>= report_lock (board memory))
      (idle (filled 1) [])

one_shift-returns : one_shift ≡ (ok tt, one_shift.1)
unfolding shift_loop shift_round shift_once look_at_locks repeat_shift shifts_mmcm take_turns
    report_lock check_pll_lock_local count_locks try_lock rounds decide decide_pll count_lock
    next_gth read_attempts end_shift
one_shift-returns =
    rw
      (
        writes_one _ _,
        writes_one _ _,
        board_reads 1 _ _,
        board_reads 1 _ _,
        writes_one _ _,
        board_reads 1 _ _,
        writes_one _ _,
        board_reads 1 _ _,
        writes_one _ _,
        board_reads 1 _ _,
        writes_one _ _,
        board_reads 1 _ _,
        writes_one _ _,
        board_reads 1 _ _,
        writes_one _ _,
        board_reads 1 _ _,
        writes_one _ _,
        board_reads 1 _ _,
        writes_one _ _,
        board_reads 1 _ _,
        writes_one _ _,
        board_reads 1 _ _,
        writes_one _ _,
        board_reads 1 _ _,
        board_reads 1 _ _,
        board_reads 1 _ _,
        board_reads 1 _ _,
      )
      refl

report_lock-blind_example :
    (w1 : World (ℕ → ℕ)) × (one_shift.1
      ≡ record w1 { reply = set_string "error" (text "Unable to find lock") ∷ w1.reply })
report_lock-blind_example =
    report_lock-blind (board memory) 3 blind refl (inl refl) 1 (start 0 0) (idle (filled 1) [])
      one_shift.1 (record { no_unlock = refl; no_lock = refl }) one_shift-returns

-- A search that has been in the lock of BC0 for 299 shifts.
abbrev nearly_done : Search
nearly_done = record (start 0 0) { reversing_for_lock = true; n_good_locks = 299 }

abbrev by_bc0 : Mode
by_bc0 = record { relock = false; mode_bc0 = true; scan = false }

decide-ended_example :
    ((decide by_bc0 true true nearly_done).search.best_lock_found ≡ true) × (by_bc0.scan ≡ false)
unfolding decide decide_bc0 find_best turn_round count_lock
decide-ended_example = decide-ended by_bc0 true true nearly_done refl

-- A board with the two registers of the shift, where the count stays at 7.
abbrev shift_names : List String
shift_names = shift_enable ∷ shift_count ∷ []

repeat_shift-stuck_example :
    (repeat_shift (named_board shift_names) 1000 5 7 (idle (filled 7) [])).0 ≡ spinning
unfolding memory_file value
repeat_shift-stuck_example =
    repeat_shift-stuck (named_board shift_names) (knows shift_names)
      (named_file shift_names (omega arith)) 5 1000 (filled 7) [] refl refl (omega arith)

abbrev daq_names : List String
daq_names =
    "GEM_AMC.DAQ.CONTROL.DAQ_ENABLE" ∷ "GEM_AMC.DAQ.CONTROL.RESET"
    ∷ "GEM_AMC.DAQ.CONTROL.INPUT_ENABLE_MASK" ∷ "GEM_AMC.DAQ.CONTROL.DAV_TIMEOUT"
    ∷ "GEM_AMC.DAQ.CONTROL.ZERO_SUPPRESSION_EN" ∷ "GEM_AMC.TTC.CTRL.L1A_ENABLE"
    ∷ "GEM_AMC.DAQ.EXT_CONTROL.RUN_TYPE" ∷ "GEM_AMC.DAQ.EXT_CONTROL.RUN_PARAMS"
    ∷ "GEM_AMC.SLOW_CONTROL.SCA.CTRL.TTC_HARD_RESET_EN" ∷ "GEM_AMC.TTC.CTRL.CNT_RESET" ∷ []

has_daq : HasDaq (knows daq_names)
has_daq = record {
  has_enable = refl;
  has_reset = refl;
  has_input_mask = refl;
  has_dav = refl;
  has_zs = refl;
  has_l1a = refl;
  has_type = refl;
  has_params = refl;
  has_sca = refl;
  has_cnt = refl;
}

-- All words of the request are 0.
abbrev zeros : Request
zeros = record {
  word = λ key. 0;
  string = λ key. "";
  word_array = λ key. [];
  binarydata = λ key. [];
  key_exists = λ key. false;
}

abbrev daq_file : RegisterFile (named_board daq_names) (knows daq_names)
daq_file = named_file daq_names (omega arith)

enable_daq_module-disabled_example :
    (h' : ℕ → ℕ) × (enable_daq_module (named_board daq_names) zeros (idle (filled 1) [])
      ≡ (ok tt, idle h' []))
    × (daq_file.get h' "GEM_AMC.DAQ.CONTROL.DAQ_ENABLE" ≡ 0)
    × (daq_file.get h' "GEM_AMC.DAQ.CONTROL.INPUT_ENABLE_MASK" ≡ 0)
    × (daq_file.get h' "GEM_AMC.TTC.CTRL.L1A_ENABLE" ≡ 1)
enable_daq_module-disabled_example =
    enable_daq_module-disabled (named_board daq_names) (knows daq_names) daq_file has_daq zeros
      (filled 1) []

configure_daq_module-configured_example :
    (h' : ℕ → ℕ) × (configure_daq_module (named_board daq_names) 0 zeros (idle (filled 1) [])
      ≡ (ok tt, idle h' []))
    × (daq_file.get h' "GEM_AMC.DAQ.CONTROL.DAQ_ENABLE" ≡ 1)
    × (daq_file.get h' "GEM_AMC.DAQ.CONTROL.INPUT_ENABLE_MASK" ≡ 0)
    × (daq_file.get h' "GEM_AMC.TTC.CTRL.L1A_ENABLE" ≡ 0)
    × (daq_file.get h' "GEM_AMC.DAQ.CONTROL.ZERO_SUPPRESSION_EN" ≡ 0)
    × (daq_file.get h' "GEM_AMC.DAQ.EXT_CONTROL.RUN_TYPE" ≡ 0)
    × (daq_file.get h' "GEM_AMC.DAQ.EXT_CONTROL.RUN_PARAMS" ≡ 0xfaac)
configure_daq_module-configured_example =
    configure_daq_module-configured (named_board daq_names) (knows daq_names) daq_file has_daq 0
      zeros (filled 1) [] refl
