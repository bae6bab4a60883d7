-- ===== src/Vfat3/ChipId.antt =====
-- src/vfat3.cpp: the identifiers of the chips, which are sent in a Reed-Muller code. The code is
-- that of the library reedmuller, a parameter.
pub mod Laws
use ctp7_modules.Prelude.{
  ℕ, zero, suc, ◌+◌, ◌*◌, ◌/◌, ◌%◌, ◌^◌, String, List, [], ◌∷◌, Bool, true, false, Option, none,
  some, ltb, ◌==◌, if◌then◌else◌, ◌++◌,
}
use ctp7_modules.Prelude.Bits.{bit}
use ctp7_modules.Effect.{
  Card, M, Request, flag, get_word, Exn, Outcome, ok, throw, text, fmt, set_word, pure, ◌>>=◌, ◌>>◌,
  respond,
}
use ctp7_modules.Register.{read_reg}
use ctp7_modules.Optohybrid.Broadcast.{vfat_reg}
use ctp7_modules.Vfat3.Sync.{with_synced}

-- RM(2,5) of the library: `ready` tells if `reedmuller_init` and the two buffers succeed, and
-- `decode` takes the `n` bits of a code word, the highest first, to the `k` bits of the message.
pub record ReedMuller : Type 0 where
  pub ready : Bool
  pub n : ℕ
  pub maxdecode : ℕ
  pub decode : List Bool → Option (List Bool)

-- `encoded[n - j - 1] = (encChipID >> j) & 0x1`, from bit `n - 1` down.
unfoldable pub code_bits : ℕ → ℕ → List Bool
code_bits zero encChipID = []
code_bits (suc j) encChipID = (bit j encChipID == 1) ∷ code_bits j encChipID

-- The digits printed one behind another, and read by `strtoul` in base 2.
unfoldable pub binary : ℕ → List Bool → ℕ
binary acc [] = acc
binary acc (b ∷ bs) = binary (acc * 2 + (if b then 1 else 0)) bs

unfoldable pub decoded : ℕ → Option (List Bool) → Outcome ℕ
decoded encChipID none =
    throw Exn.runtime_error (fmt "Unable to decode message 0x" (encChipID ∷ []))
decoded encChipID (some bits) = ok (binary 0 bits % 2 ^ 16)

unfoldable pub decode_chip_id : ReedMuller → ℕ → Outcome ℕ
decode_chip_id rm encChipID =
    if rm.ready
    then (if ltb rm.maxdecode encChipID
        then throw Exn.range_error (
            fmt " is larger than the maximum decodeable by RM(2,5)" (encChipID ∷ rm.maxdecode ∷ []))
        else decoded encChipID (rm.decode (code_bits rm.n encChipID)))
    else throw Exn.runtime_error (text "Out of memory")

-- The word of the reply: all that the decoder throws is a `std::runtime_error`, and is caught.
unfoldable pub chip_id_word : Bool → ℕ → Outcome ℕ → ℕ
chip_id_word rawID id (ok decChipID) = if rawID then id else decChipID
chip_id_word rawID id _ = id

module _ {S : Type 0} (card : Card S) (rm : ReedMuller) where
  -- One VFAT.
  unfoldable pub report_chip_id : ℕ → Bool → ℕ → ℕ → M S (Unit {0})
  report_chip_id ohN rawID notmask vfatN =
      let regName = vfat_reg ohN vfatN "HW_CHIP_ID" in
      if bit vfatN notmask == 1
      then (do
        id ← read_reg card regName
        respond (set_word regName (chip_id_word rawID id (decode_chip_id rm id))))
      else respond (set_word regName 0xdeaddead)

  -- The loop over the VFATs from `vfatN` on, `left` of them.
  unfoldable pub report_chip_ids : ℕ → Bool → ℕ → ℕ → ℕ → M S (Unit {0})
  report_chip_ids ohN rawID notmask vfatN zero = pure tt
  report_chip_ids ohN rawID notmask vfatN (suc left) =
      report_chip_id ohN rawID notmask vfatN >> report_chip_ids ohN rawID notmask (vfatN + 1) left

  unfoldable pub get_vfat3_chip_ids_local : ℕ → ℕ → Bool → M S (Unit {0})
  get_vfat3_chip_ids_local ohN vfatMask rawID =
      with_synced card ohN vfatMask (λ notmask. report_chip_ids ohN rawID notmask 0 24)

  unfoldable pub get_vfat3_chip_ids : Request → M S (Unit {0})
  get_vfat3_chip_ids request =
      get_vfat3_chip_ids_local (get_word request "ohN") (get_word request "vfatMask")
        (flag request "rawID")
