-- ===== src/Migration.antt =====
-- src/migration.c: CPU sets, the masks of /proc/litmus, and migrating between scheduling domains.
pub mod CpuSet
pub mod Mask
pub mod HexText
pub mod MaskText
pub mod Domains
pub mod Lookup
pub mod Affinity
pub mod Errors
pub mod AnyText
