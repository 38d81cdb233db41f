-- ===== src/Cas/Io.antt =====
-- What the conditional operations do to the rest of the store, and how they end. RocksDB, the file
-- manager and the clock answer through arguments; each write is an effect, in the order of the writes.
use ocache.Base.{
  Bytes, List, Option, [], if◌then◌else◌, is_empty, none, not, some, ℕ, ◌&&◌, ◌++◌, ◌∷◌,
}
use ocache.Base.Int.{ℤ}
use ocache.Merge.Row.{ValueMessage, is_raw_file, is_segment}

pub data EvictionPolicy : Type 0 where
  lru fifo : EvictionPolicy

-- The fields of Storage that the operations read. An inline threshold is not negative.
pub record Settings : Type 0 where
  pub inline_threshold : ℕ
  pub compact_threshold : ℤ
  pub default_ttl : ℕ
  pub max_disk_usage : ℕ
  pub eviction_policy : EvictionPolicy

pub data Effect : Type 0 where
  -- inflightRaw.Store and its deferred Delete
  hold_raw release_raw : Bytes → Effect
  -- deletionQueue.Add
  stage_raw : Bytes → Effect
  -- Merge on the key's row, and on a segment's delete index
  merge_row : ValueMessage → Effect
  credit_segment : Bytes → ℤ → Effect
  -- a row of the compaction index, and the key's entry in the eviction index
  index_compaction : Bytes → Effect
  index_eviction : EvictionPolicy → Effect
  -- dropDeadEvictionGeneration
  drop_eviction : Effect
  -- Cleaner.UpdateSize
  update_size : ℤ → Effect

pub data Failure : Type 0 where
  rocksdb_error internal_error io_error io_retryable storage_full lock_error corruption : Failure

-- VersionMismatchError carries the current version.
pub data CasResult : Type 0 where
  succeeded : ℕ → CasResult
  mismatch : ℕ → CasResult
  failed : Failure → CasResult

-- What an operation returned and what it wrote, in order.
pub record Outcome : Type 0 where
  pub result : CasResult
  pub effects : List Effect

abbrev pub ends : CasResult → Outcome
ends r = record { result = r; effects = [] }

-- Effects in front of those of an outcome.
abbrev pub after : List Effect → Outcome → Outcome
after es o = record { result = o.result; effects = es ++ o.effects }

-- reclaimReplacedValue
unfoldable pub reclaim_replaced_value : ValueMessage → List Effect
reclaim_replaced_value prev =
    if is_segment prev.value_type && not (is_empty prev.segment_path)
    then credit_segment prev.segment_path prev.value_length ∷ []
    else if is_raw_file prev.value_type && not (is_empty prev.raw_file_path)
    then stage_raw prev.raw_file_path ∷ []
    else []

abbrev pub reclaim : Option ValueMessage → List Effect
reclaim none = []
reclaim (some prev) = reclaim_replaced_value prev
