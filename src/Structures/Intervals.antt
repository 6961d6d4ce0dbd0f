-- ===== src/Structures/Intervals.antt =====
-- The interval tree: `insert_interval` against insertion into a sorted list, and the memory of the
-- nodes.
pub mod Model
pub mod Sorted
pub mod Insert
pub mod Memory
