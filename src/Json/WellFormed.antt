-- ===== src/Json/WellFormed.antt =====
-- The output of the print functions is a part of a JSON text.
pub mod Cpu
pub mod Memory
pub mod Devices
pub mod Nfs
pub mod Net
pub mod Numa
pub mod Tasks
pub mod Table
pub mod Whole
pub mod Answer
pub mod Clean
