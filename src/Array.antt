-- ===== src/Array.antt =====
-- The dynamic array of pointers (include/trurl/narray.h and the files n_array_*.c).
pub mod State
pub mod Grow
pub mod View
pub mod Slots
pub mod Ends
pub mod Whole
pub mod Scan
pub mod Order
