-- ===== src/Lists.antt =====
-- The linked lists: n_list_int.h and the files n_list_*.c.
pub mod Nodes
pub mod State
pub mod Scan
pub mod Ends
pub mod Remove
