-- ===== src/Lib.antt =====
-- Verification of ocache, a cache server with a RocksDB index and data files (Go).
--
-- Parts, and the files that model them:
--   Base        shared names: Boolean tests, lists and byte strings over the native numbers, int64 values.
--   Keys        storage/keys/keys.go: the names of the rows in RocksDB (and evictionEntryTime of
--               storage/cas.go). Keys.Text is what the file takes from Go's strings and fmt packages.
--   Merge       storage/merge and storage/proto: rows, the merge operator, its operands. Merge.Row and
--               Merge.Operator work on decoded rows, Merge.FullMerge on bytes.
--   Version     nextVersion and its durable reservation in storage/cas.go, as steps of concurrent calls,
--               and as the loop of one call among the steps of the others. A uint64 is a number below 2 ^ 64;
--               that stamps rise is shown for a clock and stamps below 2 ^ 63.
--   Cas         GetWithVersion, PutIfVersion and DeleteIfVersion in storage/cas.go. RocksDB, the files and
--               the clock answer through a record of answers, and what an operation writes is a list of
--               effects in the order of the writes. A ttl is not negative, and neither is the inline threshold; the
--               expiry of a ttl wraps as its int64 nanoseconds do (Cas.Lifetime);
--               metrics, and the inside of dropDeadEvictionGeneration, are left out.
--   Wire        storage/value_wire.go, over the protowire package as a parameter. The loops run on fuel, one
--               unit for each byte of the text, which Wire.Ends shows to be enough.
--   Evict       evictByIndex in storage/eviction.go, with its descriptors for LRU and FIFO.
--   Queue       ProcessBatch and pruneOldEntries in storage/deletion/queue.go, over the keys of the queue.
--   Retry       the attempts of DoWithKey in storage/retry/retry.go, by recursion on the retries left; the
--               delays are float64 arithmetic and are left out.
--   Ring        client/tokenring.go: the lookup by binary search, on one unit of fuel for each token; Go's
--               sort and hash are parameters.
--   Segment     storage/segment: builder.go in Segment.Format, WriteEntry of segment.go in Segment.Write, the
--               iterator and validateOpenSegment of manager.go in Segment.Recover. A file is its bytes and
--               its offset; the answers of the writes are an argument, crc32 is a parameter. The scan runs on
--               one unit of fuel for each byte of the file and one more. Segment.Content tells which entries
--               a segment holds. Segment.Reserve has the reservations of segment.go and manager.go.
--   Memory      client/memory.go, its maps as association lists and each reading of the clock an argument.
--               Memory.Rows reads a cache as the rows of storage/cas.go;
--               its plain Delete has a rule of its own. A lifetime in nanoseconds is taken
--               to fit an int64. List, ListPage and ListPageWithValues are left out.
--   Store       Put with putLow, DeleteKey, Get, the listings and the byteRangeReader in storage/storage.go,
--               with the errors of storage/errors/errors.go that they return. An end of a byte range is taken
--               to be below the largest int64, so that the byte behind it has a number. Store.State has the
--               rows of RocksDB, the operands of the delete index, the deletion queue and the cleaner's total;
--               a batch is written as a whole or not at all. A ttl below 0 is given as 0.
--   Fd          the reference count of storage/fd/fdcache.go, as interleaved steps of the callers of one
--               entry; the map of entries and its size are left out.
--   Clean       storage/cleaner.go and storage/orphan_sweep.go: the TTL sweep in Clean.Expire, the reconcile in
--               Clean.Reconcile and Clean.Backrefs, the orphan sweep in Clean.Orphans, and what both disk
--               limits ask evictByIndex for in Clean.Limits. Other clients work between the steps,
--               also between the re-reads of a batch and its write. The rows of
--               a scan come in the order of the keys, as RocksDB's iterator shows them; the ticker is left out.
--   Tests       every theorem with a hypothesis at a concrete input, and runs of the definitions.
pub mod Base
pub mod Keys
pub mod Memory
pub mod Segment
pub mod Merge
pub mod Version
pub mod Cas
pub mod Clean
pub mod Wire
pub mod Evict
pub mod Queue
pub mod Fd
pub mod Store
pub mod Retry
pub mod Ring
mod Tests
