-- ===== src/Optohybrid.antt =====
-- src/optohybrid.cpp.
pub mod Broadcast
pub mod Wait
pub mod Config
pub mod Scan
