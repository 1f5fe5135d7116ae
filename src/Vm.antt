-- ===== src/Vm.antt =====
-- The px64 virtual machine of pulselang-core/src/vm.rs.
pub mod State
pub mod Text
pub mod Alu
pub mod Slots
pub mod Flow
pub mod Crc
pub mod Calls
pub mod Exec
pub mod Effect
pub mod Watchdog
pub mod Tags
pub mod Strings
pub mod Replay
pub mod Bounded
pub mod Safe
pub mod Frames
mod Tests
