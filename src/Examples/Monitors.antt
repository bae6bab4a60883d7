-- ===== src/Examples/Monitors.antt =====
-- The theorems on the monitoring at small boards.
use ctp7_modules.Prelude.{
  ℕ, zero, suc, ◌+◌, ◌<◌, ◌≤◌, String, List, [], ◌∷◌, ◌++◌, true, false, map, if◌then◌else◌, ◌≡◌,
  refl, arith, all_below-at,
}
use ctp7_modules.Effect.{Reply, ok, fault, idle, pure}
use ctp7_modules.Names.{int_decimal, decimal}
use ctp7_modules.Register.{read_reg, dead}
use ctp7_modules.Register.File.{RegisterFile, memory_file, value, replace}
use ctp7_modules.Monitor.{num_of_oh, monitor_ohs, mask_within, int_rounds}
use ctp7_modules.Monitor.Counters.{oh_pairs, oh_keys, daq_oh_names, getmon_daq_oh_main_local}
use ctp7_modules.Monitor.Slow.{monitoring, sca_names, getmon_oh_sca_main_local}
use ctp7_modules.Monitor.Links.{getmon_vfat_link_local}
use ctp7_modules.Monitor.Laws.{all_known, oh_replies, monitor_ohs-replies, monitor_ohs-unreadable}
use ctp7_modules.Monitor.Restore.{
  monitoring_off, getmon_oh_sca_main_local-restores, mask_within-low,
}
use ctp7_modules.Monitor.Sync.{
  vfat_link_pairs, vfat_oh_replies, out_of_sync, all_in_sync, getmon_vfat_link_local-warns,
}
use ctp7_modules.Examples.Board.{filled}
use ctp7_modules.Examples.Named.{knows, named_board, named_file}

-- The registers of the data acquisition of OptoHybrid 0.
abbrev daq_names : List String
daq_names = num_of_oh ∷ map (λ p. p.1) (oh_pairs "GEM_AMC.DAQ." daq_oh_names 0)

abbrev daq_file : RegisterFile (named_board daq_names) (knows daq_names)
daq_file = named_file daq_names (omega arith)

daq_known :
    (i : ℕ) → i < 1 → all_known (knows daq_names) (oh_pairs "GEM_AMC.DAQ." daq_oh_names i) ≡ true
unfolding int_decimal decimal all_known
daq_known i lt =
    all_below-at 1 (λ i. all_known (knows daq_names) (oh_pairs "GEM_AMC.DAQ." daq_oh_names i)) i
      refl lt

monitor_ohs-replies_example :
    getmon_daq_oh_main_local (named_board daq_names) 1 0xfff (idle (filled 2) []) ≡ (
      ok tt,
      idle (filled 2) (
          oh_replies
            (daq_file.get (filled 2))
            (oh_keys daq_oh_names)
            (oh_pairs "GEM_AMC.DAQ." daq_oh_names)
            0xfff
            0
            1
            []),
    )
unfolding getmon_daq_oh_main_local memory_file value
monitor_ohs-replies_example =
    monitor_ohs-replies (named_board daq_names) (knows daq_names) daq_file (oh_keys daq_oh_names)
      (oh_pairs "GEM_AMC.DAQ." daq_oh_names) 0xfff 1 (filled 2) [] refl (omega arith) (omega arith)
      (omega arith) daq_known

monitor_ohs-unreadable_example :
    monitor_ohs (named_board []) (λ ohN. pure tt) (λ ohN. pure tt) dead 0xfff (idle (filled 2) [])
    ≡ (ok tt, (read_reg (named_board []) num_of_oh (idle (filled 2) [])).1)
unfolding read_reg
monitor_ohs-unreadable_example =
    monitor_ohs-unreadable (named_board []) (λ ohN. pure tt) (λ ohN. pure tt) dead 0xfff dead
      (idle (filled 2) []) (read_reg (named_board []) num_of_oh (idle (filled 2) [])).1 refl
      (omega arith) (omega arith) (omega arith)

-- The sensors of OptoHybrid 0.
abbrev sca_registers : List String
sca_registers = num_of_oh ∷ monitoring_off ∷ map (λ p. p.1) (oh_pairs monitoring sca_names 0)

abbrev sca_file : RegisterFile (named_board sca_registers) (knows sca_registers)
sca_file = named_file sca_registers (omega arith)

sca_known :
    (i : ℕ) → i < 1 → all_known (knows sca_registers) (oh_pairs monitoring sca_names i) ≡ true
unfolding int_decimal decimal all_known
sca_known i lt =
    all_below-at 1 (λ i. all_known (knows sca_registers) (oh_pairs monitoring sca_names i)) i refl
      lt

getmon_oh_sca_main_local-restores_example :
    (h' : ℕ → ℕ) × (r' : List Reply) × (getmon_oh_sca_main_local
        (named_board sca_registers)
        1
        0xfff
        (idle (filled 2) [])
      ≡ (ok tt, idle h' r'))
    × ((name : String)
        → knows sca_registers name ≡ true
        → sca_file.get h' name ≡ sca_file.get (filled 2) name)
unfolding memory_file value replace
getmon_oh_sca_main_local-restores_example =
    getmon_oh_sca_main_local-restores (named_board sca_registers) (knows sca_registers) sca_file 1
      0xfff (filled 2) [] refl refl sca_known (omega arith) (omega arith) (omega arith)
      (omega arith)

mask_within-low_example :
    (5 ≤ 12 → mask_within 0xfff 5 (idle (filled 2) []) ≡ (ok 0x1f, idle (filled 2) []))
    × (12 < 5 → mask_within 0xfff 5 (idle (filled 2) []) ≡ (fault, idle (filled 2) []))
mask_within-low_example = mask_within-low 0xfff 5 (idle (filled 2) []) (omega arith)

-- The registers of the links of the VFATs of OptoHybrid 0.
abbrev link_names : ℕ → ℕ → List String
link_names v zero = []
link_names v (suc n) = map (λ p. p.1) (vfat_link_pairs 0 v) ++ link_names (v + 1) n

abbrev link_file : RegisterFile (named_board (link_names 0 24)) (knows (link_names 0 24))
link_file = named_file (link_names 0 24) (omega arith)

link_known :
    (o i : ℕ) → o < 1 → i < 24 → all_known (knows (link_names 0 24)) (vfat_link_pairs o i) ≡ true
unfolding int_decimal decimal all_known
link_known o i lt lt' =
    let only : o ≡ 0 = omega arith in
    rw only
      (all_below-at 24 (λ v. all_known (knows (link_names 0 24)) (vfat_link_pairs 0 v)) i refl lt')

-- All counts are 2: the reply ends with the warning.
getmon_vfat_link_local-warns_example :
    getmon_vfat_link_local (named_board (link_names 0 24)) 1 false (idle (filled 2) []) ≡ (
      ok tt,
      idle (filled 2) (
          if all_in_sync (link_file.get (filled 2)) (int_rounds 1)
          then vfat_oh_replies (link_file.get (filled 2)) 0 (int_rounds 1) []
          else out_of_sync ∷ vfat_oh_replies (link_file.get (filled 2)) 0 (int_rounds 1) []),
    )
unfolding int_rounds
getmon_vfat_link_local-warns_example =
    getmon_vfat_link_local-warns (named_board (link_names 0 24)) (knows (link_names 0 24)) link_file
      (filled 2) 1 [] link_known
