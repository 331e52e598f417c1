-- ===== src/Lock/Hmcs.antt =====
-- src/lock/zm_hmcs.c: the hierarchical lock, a tree of MCS queues. Level models the queue of one
-- `struct hnode` and Tree the nodes under one parent; Hierarchy the numbers and places of the nodes
-- that `new_lock` computes, Free the walks that free them, and Destroy both together.
pub mod Level
pub mod Tree
pub mod Whole
pub mod Free
pub mod Hierarchy
pub mod Destroy
