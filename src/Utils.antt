-- ===== src/Utils.antt =====
-- The helpers of auxiliary/utils.
pub mod Strings
pub mod Inserts
pub mod Columns
