-- ===== src/Tests.antt =====
-- Tests and instances of the theorems.
mod Disk
mod Interface
mod Cpus
mod Tasks
mod Times
mod Programs
mod Phases
mod Release
mod Returns
mod Locking
mod LockTests
mod FileRuns
