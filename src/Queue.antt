-- ===== src/Queue.antt =====
-- The queues of src/queue.
pub mod Swp
pub mod Bucket
pub mod Mpb
pub mod Gl
pub mod Fa
pub mod Name
pub mod Ms
