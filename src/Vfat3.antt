-- ===== src/Vfat3.antt =====
-- src/vfat3.cpp.
pub mod Sync
pub mod Monitor
pub mod Channels
pub mod ChipId
