-- ===== src/Retry.antt =====
-- storage/retry/retry.go: operations that are tried again.
pub mod Attempts
pub mod Outcomes
