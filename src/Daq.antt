-- ===== src/Daq.antt =====
-- src/amc/daq.cpp.
pub mod Status
pub mod Link
