-- ===== src/Utils.antt =====
-- The texts of `src/utils.rs`: percent coding and the error documents.
pub mod Percent
pub mod Errors
