-- ===== src/Litmus.antt =====
-- src/litmus.c, src/task.c and src/clocks.c: locks, task parameters, task modes, sleeping.
pub mod Locks
pub mod LockNames
pub mod Params
pub mod Sporadic
pub mod Mode
pub mod ModeLaws
pub mod Setup
pub mod ModeMachine
