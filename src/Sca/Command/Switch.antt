-- ===== src/Sca/Command/Switch.antt =====
-- The `switch` of `scaCTRLCommand` in src/amc/sca.cpp, against the table of its cases.
use mathlib.Core.Path.{fun_ext}
use ctp7_modules.Prelude.{
  ℕ, List, [], ◌∷◌, map, Bool, true, false, ◌==◌, if◌then◌else◌, drop, ◌≡◌, refl, ap, ◌∙◌, sym,
}
use ctp7_modules.Effect.{Card, M, continue, continue_assoc, ◌>>=◌, ◌>>◌, pure}
use ctp7_modules.Sca.Command.{
  CtrlCommand, Statement, assigns, keeps, command_code, send_sca_command,
  send_sca_command_with_reply, labelled, label, default_reply, fall_through, sca_ctrl_command,
  with_monitoring_off,
}

-- A case of the switch: the code of its label, the command, and whether the replies are read.
pub record Case : Type 0 where
  pub code : ℕ
  pub channel : ℕ
  pub len : ℕ
  pub sent : ℕ
  pub replies : Bool

abbrev case : ℕ → ℕ → ℕ → ℕ → Bool → Case
case code channel len sent replies = record {
  code = code;
  channel = channel;
  len = len;
  sent = sent;
  replies = replies;
}

-- The cases in the order of the source, without `default`.
abbrev pub cases : ℕ → ℕ → List Case
cases len value =
    case 0xD1 0x14 1 1 true
    ∷ case 0x91 0x14 1 1 true
    ∷ case 0xF1 0x13 1 0 true
    ∷ case 0xF0 0x13 1 0 true
    ∷ case 0x02 0x00 len value false
    ∷ case 0x04 0x00 len value false
    ∷ case 0x06 0x00 len value false
    ∷ case 0x03 0x00 len value true
    ∷ case 0x05 0x00 len value true
    ∷ case 0x07 0x00 len value true
    ∷ []

-- The cases from the one with a code on.
abbrev pub from_code : ℕ → List Case → List Case
from_code c [] = []
from_code c (k ∷ ks) = if k.code == c then k ∷ ks else from_code c ks

module _ {S : Type 0} (card : Card S) where
  -- Running the statements for what they send, `result` thrown away.
  unfoldable pub sends : List (Statement card) → List ℕ → M S (Unit {0})
  sends [] result = pure tt
  sends (s ∷ rest) result = s result >>= sends rest

  fall_through-last :
      (l : List (Statement card)) (last : M S (List ℕ)) (result : List ℕ)
      → fall_through card l last result ≡ (sends l result >> last)
  unfolding fall_through sends
  fall_through-last [] last result = refl
  fall_through-last (s ∷ rest) last result = fun_ext λ w.
      ap (continue (s result w)) (fun_ext λ r. fall_through-last rest last r)
      ∙ sym (continue_assoc (s result w) (sends rest) (λ _. last))

  module _ (c ohMask : ℕ) where
    -- Every case of a list is sent, with one and the same code.
    unfoldable pub send_cases : List Case → M S (Unit {0})
    send_cases [] = pure tt
    send_cases (k ∷ ks) =
        (if k.replies
          then send_sca_command_with_reply card k.channel c k.len k.sent ohMask >> pure tt
          else send_sca_command card k.channel c k.len k.sent ohMask)
        >> send_cases ks

    statement : Case → Statement card
    statement k =
        if k.replies
        then assigns card (send_sca_command_with_reply card k.channel c k.len k.sent ohMask)
        else keeps card (send_sca_command card k.channel c k.len k.sent ohMask)

    one_case :
        (replies : Bool) (m : M S (List ℕ)) (n : M S (Unit {0})) (result : List ℕ)
        (rest : List ℕ → M S (Unit {0})) (others : M S (Unit {0}))
        → ((r : List ℕ) → rest r ≡ others)
        → ((if replies then assigns card m else keeps card n) result >>= rest)
          ≡ ((if replies then m >> pure tt else n) >> others)
    one_case true m n result rest others h = fun_ext λ w.
        ap (continue (m w)) (fun_ext h) ∙ sym (continue_assoc (m w) (λ r. pure tt) (λ u. others))
    one_case false m n result rest others h = fun_ext λ w.
        continue_assoc (n w) (λ u. pure result) rest ∙ ap (continue (n w)) (fun_ext (λ u. h result))

    sends-statements :
        (ks : List Case) (result : List ℕ) → sends (map statement ks) result ≡ send_cases ks
    unfolding sends send_cases statement
    sends-statements [] result = refl
    sends-statements (k ∷ ks) result =
        one_case k.replies (send_sca_command_with_reply card k.channel c k.len k.sent ohMask)
          (send_sca_command card k.channel c k.len k.sent ohMask) result (sends (map statement ks))
          (send_cases ks) (sends-statements ks)

  labelled-from_code :
      (cmd : CtrlCommand) (ohMask len value : ℕ)
      → drop (label card cmd) (labelled card cmd ohMask len value)
        ≡ map (statement (command_code cmd) ohMask) (from_code (command_code cmd) (cases len value))
  unfolding label labelled command_code statement
  labelled-from_code CtrlCommand.get_data ohMask len value = refl
  labelled-from_code CtrlCommand.ctrl_r_id_v1 ohMask len value = refl
  labelled-from_code CtrlCommand.ctrl_r_id_v2 ohMask len value = refl
  labelled-from_code CtrlCommand.ctrl_w_crb ohMask len value = refl
  labelled-from_code CtrlCommand.ctrl_w_crc ohMask len value = refl
  labelled-from_code CtrlCommand.ctrl_w_crd ohMask len value = refl
  labelled-from_code CtrlCommand.ctrl_r_crb ohMask len value = refl
  labelled-from_code CtrlCommand.ctrl_r_crc ohMask len value = refl
  labelled-from_code CtrlCommand.ctrl_r_crd ohMask len value = refl
  labelled-from_code CtrlCommand.ctrl_r_seu ohMask len value = refl
  labelled-from_code CtrlCommand.ctrl_c_seu ohMask len value = refl

  -- Whatever the command, scaCTRLCommand, with the monitoring switched off and back, sends the
  -- code of the command once for each case of the switch from the one with that code on, found in
  -- the table of the cases, to the channel and with the length and data of the case, then sends
  -- GET_DATA to the controller, and returns its replies.
  pub sca_ctrl_command_returns_get_data :
      (cmd : CtrlCommand) (ohMask len value : ℕ)
      → sca_ctrl_command card cmd ohMask len value
        ≡ with_monitoring_off card (
            send_cases (command_code cmd) ohMask (from_code (command_code cmd) (cases len value))
            >> send_sca_command_with_reply card 0x00 0x00 len value ohMask)
  unfolding sca_ctrl_command default_reply command_code
  sca_ctrl_command_returns_get_data cmd ohMask len value = ap (with_monitoring_off card) (
      fall_through-last _ _ []
      ∙ ap (λ m. m >> default_reply card ohMask len value)
          (ap (λ l. sends l []) (labelled-from_code cmd ohMask len value)
            ∙ sends-statements (command_code cmd) ohMask
                (from_code (command_code cmd) (cases len value)) []))
