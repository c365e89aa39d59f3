-- ===== src/L1.antt =====
-- The in-process cache of internal/cache/l1.go. `Shard` and `Cache` hold its code; `Evict`,
-- `Bounds`, `Reads` and `Refines` prove its laws.
pub mod Shard
pub mod Cache
pub mod Evict
pub mod Bounds
pub mod Reads
pub mod Run
pub mod Valid
pub mod Refines
pub mod Expiry
pub mod Race
pub mod Ring
