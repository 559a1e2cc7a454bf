-- ===== src/Util.antt =====
-- hc/core/hc/util.c: numbers as text, and C strings.
pub mod Decimal
pub mod Hex
pub mod Cstr
