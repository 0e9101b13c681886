-- ===== src/Lifecycle.antt =====
-- The life of a real-time task as its system calls show it, and code that takes no part in it.
pub mod Events
pub mod Quiet
pub mod Library
pub mod Returning
pub mod Phase
pub mod Runs
pub mod Switch
