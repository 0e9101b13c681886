-- ===== src/Uncache.antt =====
-- bin/uncache.c.
pub mod Timespec
pub mod TimespecLaws
pub mod Data
pub mod DataLaws
pub mod MaxAlloc
