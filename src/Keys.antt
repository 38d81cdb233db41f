-- ===== src/Keys.antt =====
-- storage/keys/keys.go: the names of the rows in RocksDB.
pub mod Text
pub mod Format
pub mod RoundTrip
pub mod Order
