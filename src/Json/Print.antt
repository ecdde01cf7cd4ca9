-- ===== src/Json/Print.antt =====
-- The print functions, by what they print.
pub mod Cpu
pub mod Scale
pub mod Memory
pub mod Devices
pub mod Nfs
pub mod Net
pub mod Numa
pub mod Tasks
