-- ===== src/Amc/Sbits.antt =====
-- `sbitReadOutLocal`: the trigger's clusters, read until the time is up or the reply is full.
pub mod Laws
use ctp7_modules.Prelude.{
  ℕ, zero, suc, ◌+◌, ◌*◌, ◌-◌, ◌/◌, ◌%◌, ◌^◌, String, List, [], ◌∷◌, ◌++◌, Bool, true, false, ltb,
  ◌||◌, if◌then◌else◌, length,
}
use ctp7_modules.Effect.{
  Card, M, Request, get_word, ok, spinning, set_word, set_word_array, pure, stop, ◌>>=◌, ◌>>◌,
  respond,
}
use ctp7_modules.Names.{decimal, ◌◇◌}
use ctp7_modules.Register.{read_reg, write_reg, get_address, write_raw_address, read_raw_address}

-- The address field of a monitor word; the cluster is there if it is below 24 * 64.
unfoldable pub sbit_address : ℕ → ℕ
sbit_address thisCluster = thisCluster % 2 ^ 11

unfoldable pub is_valid : ℕ → Bool
is_valid thisCluster = ltb (sbit_address thisCluster) 1536

-- The word that is stored: delay, cluster size, address.
unfoldable pub pack : ℕ → ℕ → ℕ
pack l1ADelay thisCluster =
    (l1ADelay % 2 ^ 13 * 2 ^ 14
      + thisCluster / 2 ^ 12 % 2 ^ 3 % 2 ^ 3 * 2 ^ 11
      + sbit_address thisCluster % 2 ^ 11)
    % 2 ^ 32

-- Anything larger is an overflow.
unfoldable pub cap_delay : ℕ → ℕ
cap_delay d = if ltb 4095 d then 4095 else d

-- `sizeof(uint32_t) * storedSbits.size() > 65000`
unfoldable pub is_full : List ℕ → Bool
is_full stored = ltb 65000 (4 * length stored)

-- `now` is `time(NULL)`, in seconds.
module _ {S : Type 0} (card : Card S) (now : S → ℕ) where
  abbrev pub monitor : String → String
  monitor name = "GEM_AMC.TRIGGER.SBIT_MONITOR." ◇ name

  -- `uint32_t(difftime(time(NULL), start))`
  abbrev pub seconds_since : ℕ → M S ℕ
  seconds_since start w = (ok ((now w.hw + (2 ^ 32 - start % 2 ^ 32)) % 2 ^ 32), w)

  abbrev pub time : M S ℕ
  time w = (ok (now w.hw), w)

  abbrev sleep_for : ℕ → M S (Unit {0})
  sleep_for t w = (ok tt, record w { hw = card.sleep t w.hw })

  unfoldable pub cluster_addresses : ℕ → ℕ → M S (List ℕ)
  cluster_addresses cluster zero = pure []
  cluster_addresses cluster (suc left) =
      get_address card (monitor "CLUSTER" ◇ decimal cluster)
      >>= (λ a. cluster_addresses (cluster + 1) left >>= (λ rest. pure (a ∷ rest)))

  -- The loop over the clusters: whether any was valid, and the words.
  unfoldable pub read_clusters : ℕ → List ℕ → M S (Bool × List ℕ)
  read_clusters l1ADelay [] = pure (false, [])
  read_clusters l1ADelay (a ∷ rest) = read_raw_address card a >>= (λ thisCluster.
      read_clusters l1ADelay rest
      >>= (λ others. pure (is_valid thisCluster || others.0, pack l1ADelay thisCluster ∷ others.1)))

  -- One turn of the `while`, in front of the test of the time.
  unfoldable pub acquire_once : ℕ → ℕ → List ℕ → List ℕ → M S (List ℕ)
  acquire_once reset delay clusters stored = do
    write_raw_address card reset 1
    sleep_for (4095 * 25)
    l1ADelay ← read_raw_address card delay
    got ← read_clusters (cap_delay l1ADelay) clusters
    pure (if got.0 then stored ++ got.1 else stored)

  -- The `while (acquire)`, and whether it stopped because the reply is full.
  unfoldable pub acquire : ℕ → ℕ → ℕ → List ℕ → ℕ → ℕ → List ℕ → M S (Bool × List ℕ)
  acquire zero reset delay clusters start acquireTime stored = stop spinning
  acquire (suc fuel) reset delay clusters start acquireTime stored = elim (is_full stored) [
    | true ↦ pure (true, stored)
    | false ↦ acquire_once reset delay clusters stored >>= (λ stored'. seconds_since start >>= (λ t.
        elim (ltb acquireTime t) [
          | true ↦ pure (false, stored')
          | false ↦ acquire fuel reset delay clusters start acquireTime stored'
        ]))
  ]

  unfoldable pub sbit_read_out_local : ℕ → ℕ → ℕ → M S (Bool × List ℕ)
  sbit_read_out_local fuel ohN acquireTime = do
    write_reg card (monitor "OH_SELECT") ohN
    reset ← get_address card (monitor "RESET")
    delay ← get_address card (monitor "L1A_DELAY")
    clusters ← cluster_addresses 0 8
    write_reg card "GEM_AMC.GEM_SYSTEM.VFAT3.SC_ONLY_MODE" 0
    start ← time
    acquire fuel reset delay clusters start acquireTime []

  abbrev report_full : Bool → ℕ → M S (Unit {0})
  report_full false t = pure tt
  report_full true t = do
    respond (set_word "maxNetworkSizeReached" 1)
    respond (set_word "approxLiveTime" t)

  unfoldable pub sbit_read_out : ℕ → Request → M S (Unit {0})
  sbit_read_out fuel request = do
    start ← time
    r ← sbit_read_out_local fuel (get_word request "ohN") (get_word request "acquireTime")
    approxLivetime ← seconds_since start
    report_full r.0 approxLivetime
    respond (set_word_array "storedSbits" r.1)
