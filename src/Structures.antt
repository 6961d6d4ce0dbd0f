-- ===== src/Structures.antt =====
-- examples/class_4/00_data_structures_demo/data_structures_demo.c: a task list, a bounded message
-- queue, a user table and a tree of intervals, and loading and unloading them.
pub mod Containers
pub mod Intervals
pub mod Records
pub mod Sending
pub mod Loading
