-- ===== src/Queue.antt =====
-- storage/deletion/queue.go: the queue of files to delete.
pub mod Process
pub mod Keep
pub mod Prune
