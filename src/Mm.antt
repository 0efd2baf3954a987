-- ===== src/Mm.antt =====
-- Common/Kernel/Memory/Mm.c: the memory manager of the kernel, a buddy-like allocator.
pub mod State
pub mod Level
pub mod Block
pub mod Release
pub mod Init
pub mod Allocator
