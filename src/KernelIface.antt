-- ===== src/KernelIface.antt =====
-- src/kernel_iface.c: reading files of /proc, the control page, non-preemptive sections.
pub mod Files
pub mod Stats
pub mod ControlPage
pub mod Reading
pub mod Content
pub mod NonPreempt
pub mod Decimal
pub mod StatsRound
