-- ===== src/Evict.antt =====
-- storage/eviction.go, lru.go, fifo.go: eviction under the disk limit.
pub mod Pass
pub mod Account
pub mod Batch
pub mod Choice
