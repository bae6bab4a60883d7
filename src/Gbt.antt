-- ===== src/Gbt.antt =====
-- src/gbt.cpp: the configuration of the GBTX chips and the scan of their phases. The functions that
-- return `true` on an error return it here too, with the error set in the reply.
mod Tables
pub mod Config
pub mod Scan
pub use Tables.{vfat_elink, phase_registers}
unfoldable pub use Config.{
  check_phase, write_gbt_reg, write_gbt_phase_local, write_gbt_config_local, write_gbt_config,
  write_gbt_phase,
}
unfoldable pub use Scan.{scan_gbt_phases_local, scan_gbt_phases}
