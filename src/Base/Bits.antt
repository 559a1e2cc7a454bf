-- ===== src/Base/Bits.antt =====
-- The native `bit_and`, `bit_or` and `bit_xor` at variables: one equation for the lowest digit of
-- each, and from these the masks and fields that the C code uses.
mod Digits
mod Masks
pub use Digits.*
pub use Masks.*
