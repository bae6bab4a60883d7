-- ===== src/Examples/Transfers.antt =====
-- The theorems on the configuration RAMs, the adapters, the GBT chips and raw memory, applied.
use ctp7_modules.Prelude.{
  ℕ, ◌-◌, List, [], ◌∷◌, true, none, some, ltb, if◌then◌else◌, ◌≡◌, ◌≢◌, refl, arith,
}
use ctp7_modules.Effect.{Card, idle, ok, Request, Exn, throw, fmt, caught, set_string, ◌>>◌}
use ctp7_modules.Effect.Ends.{Ends}
use ctp7_modules.BlasterRam.Size.{of_code}
use ctp7_modules.BlasterRam.Handlers.{read_conf_ram, write_conf_ram}
use ctp7_modules.BlasterRam.Refusals.{conf_ram-unknown_type}
use ctp7_modules.Sca.Command.{
  CtrlCommand, command_code, send_sca_command_with_reply, with_monitoring_off, sca_ctrl_command,
}
use ctp7_modules.Sca.Command.Switch.{
  send_cases, cases, from_code, sca_ctrl_command_returns_get_data,
}
use ctp7_modules.Gbt.Config.{write_gbt_phase_local}
use ctp7_modules.Gbt.Config.Sends.{send_phase, write_gbt_phase_local_sends}
use ctp7_modules.Gbt.Scan.{scan_gbt_phases_local, scan_loop}
use ctp7_modules.Gbt.Scan.Laws.{scan_gbt_phases_local-Ends, scan_loop_zero_step}
use ctp7_modules.Examples.Board.{memory, board, board_reads, filled}

-- A board whose reads go through as often as the hardware's number says.
countdown : Card ℕ
countdown = record {
  memsvc_open = λ h. (true, h);
  memsvc_close = λ h. (true, h);
  memsvc_read = λ h a n. (if ltb 0 h then some (λ i. a) else none, h - 1);
  memsvc_write = λ h a vs. (true, h);
  sleep = λ t h. h;
  dbi = λ name. none;
}

abbrev behind : List ℕ
behind = 5 ∷ 5 ∷ 0 ∷ []

three : Request
three = record {
  word = λ key. 3;
  string = λ key. "";
  word_array = λ key. [];
  binarydata = λ key. [];
  key_exists = λ key. true;
}

conf_ram-unknown_type_example :
    (read_conf_ram countdown three (idle 1 [])
      ≡ (throw Exn.range_error (fmt "Invalid BLASTER type specified" (3 ∷ [])), idle 1 []))
    × (write_conf_ram countdown three (idle 1 []) ≡ (
      ok tt,
      idle 1 (
          set_string "error" (
            caught "Error writing configuration RAM: "
              (fmt "Invalid BLASTER type specified" (3 ∷ [])))
          ∷ []),
    ))
unfolding three of_code
conf_ram-unknown_type_example = conf_ram-unknown_type countdown three 3 (idle 1 []) refl

sca_ctrl_command_returns_get_data_example :
    sca_ctrl_command countdown CtrlCommand.ctrl_w_crb 1 1 0
    ≡ with_monitoring_off countdown (
        send_cases countdown 0x02 1 (from_code 0x02 (cases 1 0))
        >> send_sca_command_with_reply countdown 0x00 0x00 1 0 1)
unfolding command_code
sca_ctrl_command_returns_get_data_example =
    sca_ctrl_command_returns_get_data countdown CtrlCommand.ctrl_w_crb 1 1 0

write_gbt_phase_local_sends_example :
    write_gbt_phase_local (board memory) 1 3 7 (idle (filled 4) [])
    ≡ send_phase (board memory) 1 3 7 (idle (filled 4) [])
write_gbt_phase_local_sends_example =
    write_gbt_phase_local_sends (board memory) 1 3 7 4 (idle (filled 4) []) (idle (filled 4) [])
      (board_reads 4 "GEM_AMC.GEM_SYSTEM.CONFIG.NUM_OF_OH" []) (omega arith) (omega arith)
      (omega arith)

scan_gbt_phases_local-Ends_example : Ends (scan_gbt_phases_local (board memory) 17 0 3 0 15 1)
scan_gbt_phases_local-Ends_example =
    scan_gbt_phases_local-Ends (board memory) 17 0 3 0 15 1 (omega arith) (omega arith)
      (omega arith)

scan_loop_zero_step_example :
    (scan_loop (board memory) 100 0 1 15 0 0 [] (idle (filled 1) [])).0 ≢ ok (some [])
scan_loop_zero_step_example =
    scan_loop_zero_step (board memory) 100 0 1 15 0 [] [] (idle (filled 1) []) (omega arith)
      (omega arith)
