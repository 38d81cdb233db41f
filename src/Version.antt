-- ===== src/Version.antt =====
-- storage/cas.go: the source of version stamps, shared by concurrent callers and kept across restarts.
pub mod Stamps
pub mod Monotone
pub mod Returns
