-- ===== src/Memory.antt =====
-- Blocks of memory, and the laws of the accesses.
pub mod Block
pub mod Laws
