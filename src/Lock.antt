-- ===== src/Lock.antt =====
-- The locks of src/lock.
pub mod Fifo
pub mod Ticket
pub mod Mcs
pub mod Mmcs
pub mod Hmpr
pub mod Priority
pub mod Hmcs
