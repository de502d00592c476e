-- ===== src/Oash.antt =====
-- The open-addressing table with Robin Hood hashing: noash.c and noash_int.h.
pub mod Table
pub mod Probe
pub mod Put
pub mod Remove
pub mod Walk
