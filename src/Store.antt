-- ===== src/Store.antt =====
-- storage/storage.go: plain writes and deletes of keys.
pub mod Errors
pub mod State
pub mod Write
pub mod Settled
pub mod Get
pub mod Heal
pub mod Listing
pub mod Range
pub mod Placed
pub mod Ranged
pub mod Pages
pub mod Alike
