-- ===== src/Amc.antt =====
-- src/amc.cpp: the firmware check, the VFAT masks of the OptoHybrids, and the readout of the
-- trigger's S-bit clusters.
pub mod Mask
pub mod Sbits
