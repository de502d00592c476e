-- ===== src/Hash.antt =====
-- The chained hash table (include/trurl/nhash.h and the files n_hash_*.c).
pub mod Murmur
pub mod Table
pub mod Lookup
pub mod Put
pub mod Remove
pub mod Walk
