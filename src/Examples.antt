-- ===== src/Examples.antt =====
-- The theorems at concrete inputs.
mod Board
mod Registers
mod Components
mod Boards
mod Transfers
mod Buses
mod Named
mod Links
mod Chips
mod Monitors
mod Masks
mod Tests
