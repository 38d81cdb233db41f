-- ===== src/Merge.antt =====
-- storage/merge: rows and the merge operator.
pub mod Row
pub mod Operator
pub mod Codec
pub mod FullMerge
pub mod Fence
pub mod Readback
pub mod Migration
pub mod Compose
pub mod DeleteIndex
pub mod SampleCodec
