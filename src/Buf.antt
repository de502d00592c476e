-- ===== src/Buf.antt =====
-- The dynamic buffer of nbuf.c.
pub mod Host
pub mod State
pub mod Write
pub mod Iterator
pub mod Fields
pub mod Store
pub mod Restore
