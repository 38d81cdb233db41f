-- ===== src/Tests.antt =====
-- The theorems at concrete inputs, and runs of the definitions.
mod Keys
mod Memory
mod Segment
mod Store
mod Heal
mod Listing
mod Range
mod Fd
mod Merge
mod Version
mod Cas
mod Clean
mod Reconcile
mod Wire
mod Evict
mod Queue
mod Retry
mod Ring
