-- ===== src/User.antt =====
-- User programs and the user library.
pub mod Grep
pub mod Library
