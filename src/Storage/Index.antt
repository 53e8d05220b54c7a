-- ===== src/Storage/Index.antt =====
-- The inverted property index (ADR-0002, 0007, 0009, 0010, 0013). `stod` stands for `std::stod`:
-- the 64-bit pattern of the double at the front of a text, `none` where it throws.
pub mod Key
pub mod Write
pub mod Read
pub mod Ranges
pub mod RangeEnds
pub mod RangeScan
