-- ===== src/Clean.antt =====
-- storage/cleaner.go and storage/orphan_sweep.go: the background work that keeps the store in bounds.
pub mod Strip
pub mod Expire
pub mod Spared
pub mod Backrefs
pub mod Reconcile
pub mod Orphans
pub mod Limits
pub mod Sized
pub mod Indexed
pub mod Covered
pub mod Backfilled
pub mod Owned
pub mod Referenced
pub mod Bounds
pub mod Swept
pub mod Expired
