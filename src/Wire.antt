-- ===== src/Wire.antt =====
-- storage/value_wire.go: fields read off an encoded row without decoding it.
pub mod Proto
pub mod Extract
pub mod Project
pub mod Agree
pub mod Ends
