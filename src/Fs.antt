-- ===== src/Fs.antt =====
-- Common/Kernel/Disk/Fs: partition tables.
pub mod Layout
pub mod Mbr
pub mod Gpt
pub mod Detect
pub mod Subsystem
