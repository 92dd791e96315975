-- ===== src/Util.antt =====
-- lib/tpm2_util.c, by its groups of functions.
pub mod Number
pub mod Hex
pub mod Handle
pub mod Endian
mod Tests
