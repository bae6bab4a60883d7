-- ===== src/Sca/Command.antt =====
-- Sending a command to the adapters of the links in `ohMask`, and the functions made of it.
pub mod Laws
pub mod Switch
use ctp7_modules.Prelude.{
  ℕ, zero, suc, ◌+◌, ◌*◌, ◌%◌, ◌^◌, String, List, [], ◌∷◌, Bool, true, false, ◌==◌, if◌then◌else◌,
  drop,
}
use ctp7_modules.Prelude.Bits.{bit}
use ctp7_modules.Effect.{Card, M, Request, get_word, ok, pure, ◌>>=◌, ◌>>◌}
use ctp7_modules.Names.{decimal, ◌◇◌}
use ctp7_modules.Register.{read_reg, write_reg}
use ctp7_modules.Sca.Format.{format_sca_data}

-- `SCACTRLCommand`.
pub data CtrlCommand : Type 0 where
  get_data ctrl_r_id_v1 ctrl_r_id_v2 ctrl_w_crb ctrl_w_crc ctrl_w_crd : CtrlCommand
  ctrl_r_crb ctrl_r_crc ctrl_r_crd ctrl_r_seu ctrl_c_seu : CtrlCommand

unfoldable pub command_code : CtrlCommand → ℕ
command_code CtrlCommand.get_data = 0x00
command_code CtrlCommand.ctrl_r_id_v1 = 0x91
command_code CtrlCommand.ctrl_r_id_v2 = 0xD1
command_code CtrlCommand.ctrl_w_crb = 0x02
command_code CtrlCommand.ctrl_w_crc = 0x04
command_code CtrlCommand.ctrl_w_crd = 0x06
command_code CtrlCommand.ctrl_r_crb = 0x03
command_code CtrlCommand.ctrl_r_crc = 0x05
command_code CtrlCommand.ctrl_r_crd = 0x07
command_code CtrlCommand.ctrl_r_seu = 0xF1
command_code CtrlCommand.ctrl_c_seu = 0xF0

-- `SCAChannel` and `SCAADCCommand`, the members that are used.
abbrev pub ctrl_channel : ℕ
ctrl_channel = 0x00

abbrev pub gpio_channel : ℕ
gpio_channel = 0x02

abbrev pub adc_channel : ℕ
adc_channel = 0x14

abbrev adc_go : ℕ
adc_go = 0x02

abbrev adc_w_mux : ℕ
adc_w_mux = 0x50

abbrev adc_w_curr : ℕ
adc_w_curr = 0x60

module _ {S : Type 0} (card : Card S) where
  unfoldable pub send_sca_command : ℕ → ℕ → ℕ → ℕ → ℕ → M S (Unit {0})
  send_sca_command ch cmd len value ohMask = do
    write_reg card "GEM_AMC.SLOW_CONTROL.SCA.MANUAL_CONTROL.LINK_ENABLE_MASK" ohMask
    write_reg card "GEM_AMC.SLOW_CONTROL.SCA.MANUAL_CONTROL.SCA_CMD.SCA_CMD_CHANNEL" ch
    write_reg card "GEM_AMC.SLOW_CONTROL.SCA.MANUAL_CONTROL.SCA_CMD.SCA_CMD_COMMAND" cmd
    write_reg card "GEM_AMC.SLOW_CONTROL.SCA.MANUAL_CONTROL.SCA_CMD.SCA_CMD_LENGTH" len
    write_reg card "GEM_AMC.SLOW_CONTROL.SCA.MANUAL_CONTROL.SCA_CMD.SCA_CMD_DATA"
        (format_sca_data value)
    write_reg card "GEM_AMC.SLOW_CONTROL.SCA.MANUAL_CONTROL.SCA_CMD.SCA_CMD_EXECUTE" 1

  -- What is pushed for one OptoHybrid.
  unfoldable pub reply_of : ℕ → ℕ → M S ℕ
  reply_of ohMask oh =
      if bit oh ohMask == 1
      then (do
        v ←
            read_reg card (
              "GEM_AMC.SLOW_CONTROL.SCA.MANUAL_CONTROL.SCA_REPLY_OH" ◇ decimal oh ◇ ".SCA_RPY_DATA")
        pure (format_sca_data v))
      else pure 0

  -- The loop over the OptoHybrids from `oh` on, `left` of them.
  unfoldable pub collect_replies : ℕ → ℕ → ℕ → M S (List ℕ)
  collect_replies ohMask oh zero = pure []
  collect_replies ohMask oh (suc left) =
      reply_of ohMask oh
      >>= (λ v. collect_replies ohMask (oh + 1) left >>= (λ rest. pure (v ∷ rest)))

  unfoldable pub send_sca_command_with_reply : ℕ → ℕ → ℕ → ℕ → ℕ → M S (List ℕ)
  send_sca_command_with_reply ch cmd len value ohMask = do
    send_sca_command ch cmd len value ohMask
    collect_replies ohMask 0 12

  abbrev monitoring_off : String
  monitoring_off = "GEM_AMC.SLOW_CONTROL.SCA.ADC_MONITORING.MONITORING_OFF"

  -- The three lines round each command: monitoring is switched off, and set back behind it.
  unfoldable pub with_monitoring_off : M S (List ℕ) → M S (List ℕ)
  with_monitoring_off body = do
    monMask ← read_reg card monitoring_off
    write_reg card monitoring_off 0xffffffff
    result ← body
    write_reg card monitoring_off monMask
    pure result

  -- One statement of the `switch` of `scaCTRLCommand`, from `result` to `result`.
  abbrev pub Statement : Type 0
  Statement = List ℕ → M S (List ℕ)

  abbrev pub assigns : M S (List ℕ) → Statement
  assigns m result = m

  abbrev pub keeps : M S (Unit {0}) → Statement
  keeps m result = do m; pure result

  -- The statements in the order of the source, up to `default`.
  unfoldable pub labelled : CtrlCommand → ℕ → ℕ → ℕ → List Statement
  labelled cmd ohMask len value =
      let c = command_code cmd in
      assigns (send_sca_command_with_reply 0x14 c 1 1 ohMask)
      ∷ assigns (send_sca_command_with_reply 0x14 c 1 1 ohMask)
      ∷ assigns (send_sca_command_with_reply 0x13 c 1 0 ohMask)
      ∷ assigns (send_sca_command_with_reply 0x13 c 1 0 ohMask)
      ∷ keeps (send_sca_command ctrl_channel c len value ohMask)
      ∷ keeps (send_sca_command ctrl_channel c len value ohMask)
      ∷ keeps (send_sca_command ctrl_channel c len value ohMask)
      ∷ assigns (send_sca_command_with_reply ctrl_channel c len value ohMask)
      ∷ assigns (send_sca_command_with_reply ctrl_channel c len value ohMask)
      ∷ assigns (send_sca_command_with_reply ctrl_channel c len value ohMask)
      ∷ []

  unfoldable pub default_reply : ℕ → ℕ → ℕ → M S (List ℕ)
  default_reply ohMask len value =
      send_sca_command_with_reply ctrl_channel (command_code CtrlCommand.get_data) len value ohMask

  -- No case has a `break`: from its label on, each statement runs, `default` last.
  unfoldable pub fall_through : List Statement → M S (List ℕ) → List ℕ → M S (List ℕ)
  fall_through [] last result = last
  fall_through (s ∷ rest) last result = s result >>= fall_through rest last

  -- How many labels stand above that of a command.
  unfoldable pub label : CtrlCommand → ℕ
  label CtrlCommand.ctrl_r_id_v2 = 0
  label CtrlCommand.ctrl_r_id_v1 = 1
  label CtrlCommand.ctrl_r_seu = 2
  label CtrlCommand.ctrl_c_seu = 3
  label CtrlCommand.ctrl_w_crb = 4
  label CtrlCommand.ctrl_w_crc = 5
  label CtrlCommand.ctrl_w_crd = 6
  label CtrlCommand.ctrl_r_crb = 7
  label CtrlCommand.ctrl_r_crc = 8
  label CtrlCommand.ctrl_r_crd = 9
  label CtrlCommand.get_data = 10

  unfoldable pub sca_ctrl_command : CtrlCommand → ℕ → ℕ → ℕ → M S (List ℕ)
  sca_ctrl_command cmd ohMask len value = with_monitoring_off (
      fall_through (drop (label cmd) (labelled cmd ohMask len value))
        (default_reply ohMask len value) [])

  unfoldable pub sca_i2c_command : ℕ → ℕ → ℕ → ℕ → ℕ → M S (List ℕ)
  sca_i2c_command ch cmd len value ohMask =
      with_monitoring_off (do send_sca_command ch cmd len value ohMask; pure [])

  unfoldable pub sca_gpio_command : ℕ → ℕ → ℕ → ℕ → M S (List ℕ)
  sca_gpio_command cmd len value ohMask =
      with_monitoring_off (send_sca_command_with_reply gpio_channel cmd len value ohMask)

  unfoldable pub sca_adc_command : ℕ → ℕ → M S (List ℕ)
  sca_adc_command ch ohMask = with_monitoring_off (do
    send_sca_command adc_channel adc_w_mux 4 ch ohMask
    send_sca_command adc_channel adc_w_curr 4 (2 ^ ch % 2 ^ 32) ohMask
    send_sca_command_with_reply adc_channel adc_go 4 1 ohMask)

  unfoldable pub read_sca_chip_id : ℕ → Bool → M S (List ℕ)
  read_sca_chip_id ohMask scaV1 =
      if scaV1
      then sca_ctrl_command CtrlCommand.ctrl_r_id_v1 ohMask 1 0
      else sca_ctrl_command CtrlCommand.ctrl_r_id_v2 ohMask 1 0

  unfoldable pub reset_sca_seu_counter : ℕ → M S (Unit {0})
  reset_sca_seu_counter ohMask = do sca_ctrl_command CtrlCommand.ctrl_c_seu ohMask 1 0; pure tt

  unfoldable pub read_sca_seu_counter : ℕ → Bool → M S (List ℕ)
  read_sca_seu_counter ohMask reset = do
    if reset then reset_sca_seu_counter ohMask else pure tt
    sca_ctrl_command CtrlCommand.ctrl_r_seu ohMask 1 0

  unfoldable pub sca_module_reset : ℕ → M S (Unit {0})
  sca_module_reset ohMask = do
    origMask ← read_reg card "GEM_AMC.SLOW_CONTROL.SCA.CTRL.SCA_RESET_ENABLE_MASK"
    write_reg card "GEM_AMC.SLOW_CONTROL.SCA.CTRL.SCA_RESET_ENABLE_MASK" ohMask
    write_reg card "GEM_AMC.SLOW_CONTROL.SCA.CTRL.MODULE_RESET" 1
    write_reg card "GEM_AMC.SLOW_CONTROL.SCA.CTRL.SCA_RESET_ENABLE_MASK" origMask

  unfoldable pub sca_hard_reset_enable : Bool → M S (Unit {0})
  sca_hard_reset_enable en =
      write_reg card "GEM_AMC.SLOW_CONTROL.SCA.CTRL.TTC_HARD_RESET_EN" (if en then 1 else 0)
