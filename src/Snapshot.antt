-- ===== src/Snapshot.antt =====
-- internal/snapshot: how a snapshot is put together.
pub mod Summary
pub mod Merge
pub mod Backfill
pub mod Staleness
pub mod Gpu
pub mod Build
