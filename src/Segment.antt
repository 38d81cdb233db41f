-- ===== src/Segment.antt =====
-- storage/segment: the file format of a segment, its writes, and the recovery of an open segment.
pub mod Format
pub mod Fields
pub mod RoundTrip
pub mod Write
pub mod Content
pub mod Kept
pub mod Recover
pub mod Accept
pub mod Recovered
pub mod Exact
pub mod Reserve
pub mod Exclusive
