-- ===== src/Sca.antt =====
-- src/amc/sca.cpp: commands to the slow-control adapters, one for each OptoHybrid.
pub mod Format
pub mod Command
pub mod Handlers
