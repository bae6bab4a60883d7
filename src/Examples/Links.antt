-- ===== src/Examples/Links.antt =====
-- The theorems on the OptoHybrids, applied.
use ctp7_modules.Prelude.{
  all_below-at, all_below, get_elem?, ◌++◌, ◌*◌, ◌≤◌, ℕ, ◌+◌, ◌-◌, ◌%◌, ◌^◌, ◌<◌, String, List, [],
  ◌∷◌, true, false, none, some, ◌==◌, if◌then◌else◌, tabulate, length, replicate, ◌≡◌, ◌≢◌, refl,
  ◌∙◌, arith, ==_iff,
}
use ctp7_modules.Prelude.Bits.{bit}
use ctp7_modules.Effect.{Card, Reply, idle, ok, fault, text, ◌>>◌}
use ctp7_modules.Names.{int_decimal, decimal}
use ctp7_modules.Register.{read_raw_reg}
use ctp7_modules.Register.Access.{read_tries}
use ctp7_modules.Register.Entry.{read_address_entry}
use ctp7_modules.Memhub.{memhub_read-idle}
use ctp7_modules.Register.Ram.{ram_card-Ram}
use ctp7_modules.AddressTable.{Node, serialize}
use ctp7_modules.Files.{Files}
use ctp7_modules.Optohybrid.Broadcast.{vfat_reg, broadcast_write_local, broadcast_read_local}
use ctp7_modules.Optohybrid.Broadcast.Laws.{
  Geb, broadcast_write_local-memory, broadcast_read-broadcast_write,
}
use ctp7_modules.Optohybrid.Wait.{wait_idle-returns}
use ctp7_modules.Optohybrid.Broadcast.{wait_idle}
use ctp7_modules.Optohybrid.Config.{load_vt1_local}
use ctp7_modules.Optohybrid.Config.Laws.{load_vt1_local-no_effect}
use ctp7_modules.Optohybrid.Scan.{
  read_points, result_size, result_index, stop_cal_pulse_2_all_channels_local,
}
use ctp7_modules.Optohybrid.Scan.Index.{result_index-fits}
use ctp7_modules.Optohybrid.Scan.Laws.{
  result_reg, behind, behind_points, read_points-return, read_points-overflow,
}
use ctp7_modules.Optohybrid.Scan.Pulses.{pulse_enable, release_major, stop_cal_pulse-clears}
use ctp7_modules.Register.File.{RegisterFile, memory_file, value}
use package.text.Mathlib.Text.{◌==◌ as str_eq}
use ctp7_modules.Examples.Board.{
  memory, memory-IsEntry, board, board_reads, board_reads_word, filled,
}
use ctp7_modules.Examples.Named.{
  position, knows, node_at, named_table, named_board, named_file, named-IsPlain,
}

abbrev release_name : String
release_name = "GEM_AMC.GEM_SYSTEM.RELEASE.MAJOR"

-- The version, and the register CFG_RUN of the 24 VFATs of OptoHybrid 2.
abbrev geb_names : List String
geb_names = release_name ∷ tabulate 0 24 (λ i. vfat_reg 2 i "CFG_RUN")

abbrev geb_node : ℕ → Node
geb_node i = node_at (position geb_names (vfat_reg 2 i "CFG_RUN"))

vfat_position : (i : ℕ) → i < 24 → position geb_names (vfat_reg 2 i "CFG_RUN") ≡ i + 1
unfolding int_decimal decimal
vfat_position i lt =
    (==_iff _ _).0
      (all_below-at 24 (λ i. position geb_names (vfat_reg 2 i "CFG_RUN") == i + 1) i refl lt)

vfat_known : (i : ℕ) → i < 24 → knows geb_names (vfat_reg 2 i "CFG_RUN") ≡ true
unfolding int_decimal decimal
vfat_known i lt = all_below-at 24 (λ i. knows geb_names (vfat_reg 2 i "CFG_RUN")) i refl lt

geb_names-Geb :
    Geb (named_board geb_names) 2 "CFG_RUN" geb_node (node_at (position geb_names release_name))
geb_names-Geb = record {
  plain = λ i lt. named-IsPlain geb_names (omega arith) (vfat_reg 2 i "CFG_RUN") (vfat_known i lt);
  distinct =
      λ i j lt lt' ne same. ne (omega (arith, vfat_position i lt, vfat_position j lt', same));
  release_plain = named-IsPlain geb_names (omega arith) release_name refl;
  release_apart = λ i lt same. omega (arith, vfat_position i lt, same);
}

broadcast_write_local-memory_example :
    (h' : ℕ → ℕ) × (broadcast_write_local
        (named_board geb_names)
        0
        2
        "CFG_RUN"
        1
        0xff0000f0
        (idle (filled 3) [])
      ≡ (ok tt, idle h' []))
    × ((k : ℕ) → k < 24 → bit k 0xff0000f0 ≢ 1 → h' (geb_node k).real_address ≡ 1)
    × ((a : ℕ)
        → ((k : ℕ) → k < 24 → bit k 0xff0000f0 ≢ 1 → (geb_node k).real_address ≢ a)
        → h' a ≡ 3)
broadcast_write_local-memory_example =
    broadcast_write_local-memory (named_board geb_names) (ram_card-Ram (named_table geb_names)) 2
      "CFG_RUN" geb_node (node_at (position geb_names release_name)) geb_names-Geb 0 1 0xff0000f0
      (filled 3) [] refl

broadcast_read-broadcast_write_example :
    ((broadcast_write_local (named_board geb_names) 0 2 "CFG_RUN" 1 0xff0000f0
        >> broadcast_read_local (named_board geb_names) 2 "CFG_RUN" 0xff0000f0)
      (idle (filled 3) [])).0
    ≡ ok (tabulate 0 24 (λ k. if bit k 0xff0000f0 == 1 then 0 else 1))
broadcast_read-broadcast_write_example =
    broadcast_read-broadcast_write (named_board geb_names) (ram_card-Ram (named_table geb_names)) 2
      "CFG_RUN" geb_node (node_at (position geb_names release_name)) geb_names-Geb 0 1 0xff0000f0
      (filled 3) [] refl (omega arith) (omega arith)

-- A card whose hardware counts the milliseconds that are left down, and shows them in each word.
counting : Card ℕ
counting = record {
  memsvc_open = λ h. (true, h);
  memsvc_close = λ h. (true, h);
  memsvc_read = λ h a n. (some (λ i. h), h);
  memsvc_write = λ h a vs. (true, h);
  sleep = λ t h. h - 1;
  dbi = λ name. some (serialize memory);
}

counting_reads :
    (h : ℕ) (r : List Reply)
    → read_raw_reg counting "Running" (idle h r) ≡ (ok (h % 2 ^ 32), idle h r)
unfolding read_raw_reg read_tries counting
counting_reads h r =
    read_address_entry counting memory memory-IsEntry (idle h r)
    ∙ rw (memhub_read-idle counting 0x66000000 1 h r) refl

wait_idle-returns_example :
    (h' : ℕ) × (wait_idle counting 5 "Running" (idle 3 []) ≡ (ok tt, idle h' []))
unfolding counting
wait_idle-returns_example =
    wait_idle-returns counting "Running"
      (record {
        busy = λ h. h;
        word = λ h. h % 2 ^ 32;
        reads = counting_reads;
        done = λ h e. omega (arith, e);
        counts = λ h. refl;
      })
      5 3 [] (omega arith)

-- A board without an address table.
blank : Card ℕ
blank = record {
  memsvc_open = λ h. (true, h);
  memsvc_close = λ h. (true, h);
  memsvc_read = λ h a n. (some (λ i. 1), h);
  memsvc_write = λ h a vs. (true, h);
  sleep = λ t h. h + t;
  dbi = λ name. none;
}

thresholds : Files
thresholds name = some ("vfatN/I:vt1/I:trimRange/I" ∷ "0 25 2" ∷ "1 26 3" ∷ "2 x" ∷ [])

load_vt1_local-no_effect_example :
    (r : List Reply) × (load_vt1_local blank 0 thresholds 2 "thresholds.txt" 0x64 (idle 0 [])
      ≡ (ok tt, idle 0 r))
unfolding blank
load_vt1_local-no_effect_example =
    load_vt1_local-no_effect blank refl 0 thresholds 2 "thresholds.txt" 0x64 (idle 0 []) refl

result_index-fits_example :
    (result_index 10 69 3 23 67 < result_size 10 69 3)
    × (result_index 10 69 3 23 67 ≡ result_index 10 69 3 5 40
        → ◌≡◌ {A = ℕ} 23 5 × ◌≡◌ {A = ℕ} 19 10)
result_index-fits_example =
    result_index-fits 10 3 20 23 19 5 10 (omega arith) (omega arith) (omega arith) (omega arith)
      (omega arith) (omega arith) (omega arith)

read_points-return_example :
    (out : List ℕ) × (read_points
        (board memory)
        30
        2
        10
        69
        3
        10
        (replicate (result_size 10 69 3) 0)
        (idle (filled 5) [])
      ≡ (ok out, idle (behind_points (λ v h. h) 20 (filled 5)) []))
    × (length out ≡ 480)
    × ((i m : ℕ)
        → i < 24
        → m < 20
        → get_elem? out (result_index 10 69 3 i (10 + m * 3))
          ≡ some (behind (λ v h. h) i (behind_points (λ v h. h) m (filled 5)) 0x66000000 % 2 ^ 32))
read_points-return_example =
    read_points-return (board memory) 2 (λ v h. h 0x66000000 % 2 ^ 32) (λ v h. h)
      (λ v h r lt. board_reads_word h (result_reg 2 v) r) 10 3 20 (omega arith) (omega arith)
      (omega arith) (omega arith) 30 (filled 5) [] (omega arith)

read_points-overflow_example :
    (read_points
      (board memory)
      1
      2
      5
      6
      100
      5
      (replicate (result_size 5 6 100) 0)
      (idle (filled 5) [])).0
    ≡ fault
read_points-overflow_example =
    read_points-overflow (board memory) 2 5 (idle (filled 5) []) (idle (filled 5) [])
      (board_reads 5 (result_reg 2 0) []) 5 6 100 0 (omega arith) (omega arith) (omega arith)
      (omega arith)

-- The channels 0 and 1 of the 24 VFATs of OptoHybrid 2.
abbrev pulse_names : List String
pulse_names =
    release_major
    ∷ (tabulate 0 24 (λ v. pulse_enable 2 v 0) ++ tabulate 0 24 (λ v. pulse_enable 2 v 1))

pulse_known : (v c : ℕ) → v < 24 → c < 2 → knows pulse_names (pulse_enable 2 v c) ≡ true
unfolding int_decimal decimal
pulse_known v c lt lt' =
    all_below-at 2 (λ d. knows pulse_names (pulse_enable 2 v d)) c
      (all_below-at 24 (λ u. all_below 2 (λ d. knows pulse_names (pulse_enable 2 u d))) v refl lt)
      lt'

abbrev pulse_file : RegisterFile (named_board pulse_names) (knows pulse_names)
pulse_file = named_file pulse_names (omega arith)

stop_cal_pulse-clears_example :
    (h' : ℕ → ℕ) × (stop_cal_pulse_2_all_channels_local
        (named_board pulse_names)
        3
        2
        0xff000002
        0
        1
        (idle (filled 3) [])
      ≡ (ok tt, idle h' []))
    × ((v c : ℕ)
        → v < 24
        → bit v 0xff000002 ≡ 0
        → 0 ≤ c
        → c ≤ 1
        → pulse_file.get h' (pulse_enable 2 v c) ≡ 0)
    × ((o : String)
        → knows pulse_names o ≡ true
        → ((v c : ℕ)
            → v < 24
            → bit v 0xff000002 ≡ 0
            → 0 ≤ c
            → c ≤ 1
            → str_eq (pulse_enable 2 v c) o ≡ false)
        → pulse_file.get h' o ≡ pulse_file.get (filled 3) o)
unfolding memory_file value
stop_cal_pulse-clears_example =
    stop_cal_pulse-clears (named_board pulse_names) (knows pulse_names) pulse_file 2 3 0xff000002 0
      1 (omega arith) (omega arith) (omega arith)
      (λ v c lt un lo hi. pulse_known v c lt (omega arith)) (filled 3) [] refl refl
