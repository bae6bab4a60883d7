-- ===== src/Monitor.antt =====
-- src/daq_monitor.cpp: what its functions share, the number of OptoHybrids, their mask, and the
-- replies; each group of counters has a module below.
pub mod Counters
pub mod Links
pub mod Slow
pub mod Laws
pub mod Restore
pub mod Sync
use ctp7_modules.Prelude.{
  ℕ, zero, suc, ◌+◌, ◌-◌, ◌/◌, ◌%◌, ◌^◌, String, List, [], ◌∷◌, Bool, ltb, ◌==◌, if◌then◌else◌,
  bit_and,
}
use ctp7_modules.Prelude.Bits.{bit}
use ctp7_modules.Effect.{
  Card, M, Request, get_word, fault, set_word, pure, stop, ◌>>=◌, ◌>>◌, respond,
}
use ctp7_modules.Names.{int_decimal, ◌◇◌}
use ctp7_modules.Register.{read_reg, dead}

abbrev pub noh_max : ℕ
noh_max = 12

-- "OH%i."
abbrev pub oh_key : ℕ → String → String
oh_key ohN name = "OH" ◇ int_decimal ohN ◇ "." ◇ name

-- `a < b` of two `int`, each as its 32 bits.
unfoldable pub int_ltb : ℕ → ℕ → Bool
int_ltb a b = ltb ((a + 2 ^ 31) % 2 ^ 32) ((b + 2 ^ 31) % 2 ^ 32)

-- The rounds of `for (int i = 0; i < n; i++)`.
unfoldable pub int_rounds : ℕ → ℕ
int_rounds n = if ltb n (2 ^ 31) then n else 0

-- `if (NOH_local < NOH) NOH = NOH_local;`
unfoldable pub int_min : ℕ → ℕ → ℕ
int_min local n = if int_ltb local n then local else n

abbrev pub num_of_oh : String
num_of_oh = "GEM_AMC.GEM_SYSTEM.CONFIG.NUM_OF_OH"

abbrev pub asked_mask : Request → ℕ
asked_mask request = if request.key_exists "ohMask" then get_word request "ohMask" else 0xfff

-- `0xfff >> (NOH_MAX-NOH)`, where the difference is below 32.
unfoldable pub cut_mask : ℕ → ℕ → ℕ
cut_mask ohMask n = bit_and ohMask (0xfff / 2 ^ ((noh_max + 2 ^ 32 - n) % 2 ^ 32))

module _ {S : Type 0} where
  -- The mask where the request asks for more OptoHybrids than there are; a shift by 32 bits or more
  -- is undefined.
  unfoldable pub mask_within : ℕ → ℕ → M S ℕ
  mask_within ohMask n =
      if ltb ((noh_max + 2 ^ 32 - n) % 2 ^ 32) 32 then pure (cut_mask ohMask n) else stop fault

  -- The loop over the OptoHybrids from `ohN` on, `left` of them: `masked` where the bit of the mask
  -- is 0; a shift by 32 bits or more is undefined.
  unfoldable pub for_ohs : (ℕ → M S (Unit {0})) → (ℕ → M S (Unit {0})) → ℕ → ℕ → ℕ → M S (Unit {0})
  for_ohs masked body ohMask ohN zero = pure tt
  for_ohs masked body ohMask ohN (suc left) =
      (if ltb ohN 32 then (if bit ohN ohMask == 1 then body ohN else masked ohN) else stop fault)
      >> for_ohs masked body ohMask (ohN + 1) left

  -- A counted loop without a mask.
  unfoldable pub count_from : (ℕ → M S (Unit {0})) → ℕ → ℕ → M S (Unit {0})
  count_from body i zero = pure tt
  count_from body i (suc left) = body i >> count_from body (i + 1) left

  -- `la->response->set_word(key, 0xdeaddead)` for each key.
  unfoldable pub report_dead : List String → M S (Unit {0})
  report_dead [] = pure tt
  report_dead (key ∷ rest) = respond (set_word key dead) >> report_dead rest

module _ {S : Type 0} (card : Card S) where
  -- `la->response->set_word(key, readReg(la, register))` for each pair of a key and a register.
  unfoldable pub report_as : List (String × String) → M S (Unit {0})
  report_as [] = pure tt
  report_as (p ∷ rest) = read_reg card p.1 >>= (λ v. respond (set_word p.0 v) >> report_as rest)

  -- The number of OptoHybrids and the mask of a request, and the function on them.
  unfoldable pub with_ohs : (ℕ → ℕ → M S (Unit {0})) → Request → M S (Unit {0})
  with_ohs go request = do
    n ← read_reg card num_of_oh
    if request.key_exists "NOH"
        then (if ltb n (get_word request "NOH")
            then mask_within (asked_mask request) n >>= go (get_word request "NOH")
            else go (get_word request "NOH") (asked_mask request))
        else go n (asked_mask request)

  -- The same without a mask.
  unfoldable pub requested_ohs : Request → M S ℕ
  requested_ohs request = do
    n ← read_reg card num_of_oh
    pure (if request.key_exists "NOH" then get_word request "NOH" else n)

  -- The number of rounds: at most what the register says.
  unfoldable pub local_ohs : ℕ → M S ℕ
  local_ohs n = read_reg card num_of_oh >>= (λ n_local. pure (int_rounds (int_min n_local n)))

  -- What the functions on the OptoHybrids have in common.
  unfoldable pub monitor_ohs : (ℕ → M S (Unit {0})) → (ℕ → M S (Unit {0})) → ℕ → ℕ → M S (Unit {0})
  monitor_ohs masked body n ohMask = local_ohs n >>= (λ left. for_ohs masked body ohMask 0 left)
