-- ===== src/Syntax.antt =====
-- The syntax of modes and coefficients in src/Cabac.cpp. Each method makes calls of EncodeBin and EncodeBinsEP and
-- never reads the registers, so it is the list of these calls.
pub mod Bins
pub mod Remain
pub mod Last
pub mod Modes
pub mod Increments
pub mod Coeff
mod Tests
