-- ===== src/Register.antt =====
-- The register functions of src/utils.cpp. The definitions are in `Mask`, `Access` and `Block`, what
-- they guarantee in the other children.
pub mod Mask
pub mod Access
pub mod Report
pub mod Block
pub mod Ram
pub mod Entry
pub mod File
pub mod RoundTrip
pub mod Retry
pub mod Database
pub mod NonzeroBits
pub mod Ends
unfoldable pub use Mask.{apply_mask, shift_amount, merge, num_nonzero_bits, dead, full_mask}
unfoldable pub use Access.{
  get_mask, get_address, write_raw_address, read_raw_address, write_address, read_address,
  write_raw_reg, read_raw_reg, read_reg, write_reg, read_reg_from_db,
}
unfoldable pub use Block.{read_block, write_block, check_block, target_of}
pub use Block.{Verdict}
unfoldable pub use Report.{report}
