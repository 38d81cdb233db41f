-- ===== src/Ring.antt =====
-- client/tokenring.go: consistent hashing over the tokens of the nodes.
pub mod Lookup
pub mod Owner
