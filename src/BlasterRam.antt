-- ===== src/BlasterRam.antt =====
-- src/amc/blaster_ram.cpp: the RAMs that hold the front-end configuration, read and written as
-- blobs of 32-bit words. `Size` has the sizes and base addresses, `Read` and `Write` the transfers,
-- `Handlers` the RPC methods.
pub mod Size
pub mod Read
pub mod Write
pub mod Handlers
pub mod Laws
pub mod Refusals
