-- ===== src/Isa.antt =====
-- The px64 instruction set of pulselang-core/src/isa.rs: opcodes, native function numbers, limits.
mod Codes
pub mod Names
pub mod Limits
pub use Codes.{Opcode, Native}
unfoldable pub use Codes.{decode_opcode, decode_native}
