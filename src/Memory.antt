-- ===== src/Memory.antt =====
-- client/memory.go: the in-memory implementation of the client interface.
pub mod State
pub mod WellFormed
pub mod Stamps
pub mod Rows
pub mod Written
pub mod Decide
pub mod Refines
pub mod Range
