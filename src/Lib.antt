-- ===== src/Lib.antt =====
-- The RPC modules of the CTP7 card: handlers that a server calls with a request and a response, and
-- that read and write the registers of the board through libmemsvc.
--
-- The program's parts, from the bottom up, and the file for each:
-- - src/memhub.cpp puts each transaction with libmemsvc between `sem_wait` and `sem_post` of a
--   semaphore that all processes share. Memhub.antt has the functions as one process runs them,
--   Memhub/Lock.antt the processes side by side, any of which a signal may kill at any line.
-- - src/utils.cpp has the address table and the register functions. AddressTable.antt: `serialize`,
--   `split`, the hexadecimal numbers (AddressTable/Hex.antt) and columns (AddressTable/Fields.antt),
--   and `update_address_table` (AddressTable/Update.antt). Register.antt: `applyMask`, the merging of
--   `writeReg` and `getNumNonzeroBits` (Register/Mask.antt), the functions on single registers
--   (Register/Access.antt) and on blocks (Register/Block.antt).
-- - src/memory.cpp and src/extras.cpp give clients raw addresses: RawMemory.antt.
-- - include/hw_constants.h, the variant ge11: Constants.antt.
-- - src/gbt.cpp sets the phases and configurations of the GBT chips (Gbt/Config.antt) and scans for
--   good phases (Gbt/Scan.antt).
-- - src/amc.cpp: the masks of VFATs and the firmware check (Amc/Mask.antt), and the readout of the
--   trigger's clusters (Amc/Sbits.antt).
-- - src/amc/blaster_ram.cpp: BlasterRam.antt, with the sizes (BlasterRam/Size.antt), the transfers
--   (BlasterRam/Read.antt, BlasterRam/Write.antt) and the RPC methods (BlasterRam/Handlers.antt).
-- - src/amc/sca.cpp: Sca.antt, with the byte order (Sca/Format.antt), the commands (Sca/Command.antt)
--   and the RPC methods (Sca/Handlers.antt).
-- - src/amc/ttc.cpp: the lock of the PLL, the phase monitor, the counters and switches of the
--   trigger: Ttc.antt. `ttcMMCMPhaseShiftLocal`, the search for a phase with a lock, in two parts:
--   the decisions on what was read, as steps on its variables (Ttc/Shift.antt), and the search on the
--   hardware that takes them (Ttc/Phase.antt).
-- - src/amc/daq.cpp: Daq.antt, with the registers it reads (Daq/Status.antt) and the link and the
--   module that it sets up (Daq/Link.antt), which call the trigger's functions and those of the SCA.
-- - src/optohybrid.cpp: access to all VFATs of an OptoHybrid at once (Optohybrid/Broadcast.antt),
--   thresholds and trims from files (Optohybrid/Config.antt), the scan controller
--   (Optohybrid/Scan.antt).
-- - src/vfat3.cpp: which chips are synchronised and their configuration (Vfat3/Sync.antt), the DAC
--   monitor and the ADCs (Vfat3/Monitor.antt), the channel registers (Vfat3/Channels.antt) and the
--   chip identifiers (Vfat3/ChipId.antt).
-- - src/daq_monitor.cpp: Monitor.antt has the number and the mask of the OptoHybrids, and the loop over
--   them; the functions on counters are in Monitor/Counters.antt, on links in Monitor/Links.antt, on
--   the SCA and the ADC of the FPGA in Monitor/Slow.antt. `int` is there a word read as signed.
-- - src/calibration_routines.cpp: Calibration.antt has what the scans are set up with, the masks of the
--   channels, the calibration pulses, the monitor and the generator of triggers. An
--   `std::unordered_map` is the list of its entries there, gone through in any order.
-- - src/optical.cpp measures the power at the optical receivers over I2C, without the registers:
--   Optical.antt.
-- The C++ name `readReg` is `read_reg` here, and so on; a method whose local function has the same
-- words is `…_method`. Loops.antt has the forms of loop that these share (over the VFATs that
-- a mask leaves or selects, over a range with a step, with a `return` inside), Files.antt the reading
-- of text files by `std::getline` and `>>`, Register/Report.antt the loop that reads a list of
-- registers into a response.
--
-- How code is modelled. Effect.antt has the state of a process (`World`: the hardware, the semaphore,
-- the flag `busy`, the calls on the response) and what a call may come to (`Outcome`: a value, an
-- exception, blocked on the semaphore, exit, undefined behaviour, a loop out of fuel). A function of
-- the source is a function from the one to the other, written with do blocks. Logging has no effect
-- here. `uint32_t` is a natural number below 2 ^ 32, with `% 2 ^ 32` wherever the source's arithmetic
-- can leave that range.
--
-- What is outside the repository is a parameter: libmemsvc, the kernel's clock and the table in LMDB
-- are the fields of `Card`, the XML parser is an argument of `update_address_table`, the I2C buses are a value of `Bus`, the time of the
-- S-bit readout is an argument of its functions. `Ram` (Register/Ram.antt) states the documented
-- behaviour of memory that the round trips need, and `ram_card` is an instance. Register/File.antt
-- builds on it the view of the address table as a file of plain registers (`RegisterFile`), which the
-- theorems on the broadcast, the data acquisition and the monitoring take. The Reed-Muller decoder is an argument of
-- the functions on chip identifiers, the files of the disk are a value of `Files`.
--
-- Fuel. The loops of the source that are not bounded by their form take fuel: the phase loop of
-- `scanGBTPhasesLocal`, for which seventeen turns are shown to be enough when the step is not 0; the
-- acquisition of `sbitReadOutLocal`, which the clock ends; the wait for the broadcast module, which
-- needs more turns than the module takes milliseconds; the wait for the scan controller; the loop over
-- the values of an ultra scan; `for_range`, a turn for each channel; and the search for a phase, with
-- the loop in it that repeats a shift, which nothing bounds. All others are structural recursion on
-- their bound.
--
-- Not modelled: the scans of src/calibration_routines.cpp, which use the functions above; of `ttcMMCMPhaseShiftLocal` the last
-- `else`, behind `else if (true)`, and the count of all shifts, which is only logged; src/rpctest.cpp
-- and the tables of methods, which have no logic of their own. LMDB is taken to have room for what is
-- put into it, and a semaphore to be there once it was opened.
--
-- Prelude.antt has the shared names, tests, lists and bits; Effect/Ends.antt the rules by which a
-- function is seen to end; Examples.antt the theorems at concrete inputs.
pub mod Prelude
pub mod Effect
pub mod Memhub
pub mod Names
pub mod AddressTable
pub mod Register
pub mod RawMemory
pub mod Constants
pub mod Amc
pub mod Files
pub mod Gbt
pub mod Loops
pub mod BlasterRam
pub mod Optical
pub mod Monitor
pub mod Calibration
pub mod Optohybrid
pub mod Ttc
pub mod Sca
pub mod Daq
pub mod Vfat3
pub mod Examples
