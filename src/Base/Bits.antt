-- ===== src/Base/Bits.antt =====
-- Laws of `&`, `|`, `^` and the shifts at every width.
mod Step
mod Fields
mod Xor
pub use Step.*
pub use Fields.*
pub use Xor.*
