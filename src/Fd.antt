-- ===== src/Fd.antt =====
-- storage/fd/fdcache.go: the reference count of a cached file descriptor.
pub mod Entry
pub mod Close
