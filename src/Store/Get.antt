-- ===== src/Store/Get.antt =====
-- storage/storage.go: Get, with the purge of a row whose raw file is gone. The value is the bytes of the
-- reader that is returned; metrics are left out.
use ocache.Base.{Bool, Bytes, Option, false, if◌then◌else◌, none, some, ℕ, ◌&&◌}
use ocache.Base.Int.{leb_ℤ, ltb_ℤ, pos, ℤ}
use ocache.Merge.Row.{ValueMessage, ValueType, inline, raw_file, segment, unknown_type}
use ocache.Merge.Codec.{Codec}
use ocache.Store.Errors.{
  RocksError, StorageError, map_rocksdb_error, new_corruption_error, new_io_retryable_error,
  new_lock_error,
}

-- What the reader of a segment or of a raw file answers.
pub data Backing : Type 0 where
  present : Bytes → Backing
  nil_reader file_missing file_locked file_failed : Backing

-- RocksDB's answer to the read of the row.
pub data RowRead : Type 0 where
  read_failed : RocksError → RowRead
  no_row : RowRead
  row_bytes : Bytes → RowRead

pub data GetAnswer : Type 0 where
  served : Bytes → GetAnswer
  absent_key : GetAnswer
  get_error : StorageError → GetAnswer

-- The answer, whether the access time was refreshed, and the path whose purge was merged.
pub record GetOutcome : Type 0 where
  pub answer : GetAnswer
  pub touched : Bool
  pub purged : Option Bytes

unfoldable pub segment_answer : Backing → GetAnswer
segment_answer (present b) = served b
segment_answer nil_reader = absent_key
segment_answer file_missing = get_error new_io_retryable_error
segment_answer file_locked = get_error new_io_retryable_error
segment_answer file_failed = get_error new_io_retryable_error

unfoldable pub raw_answer : Backing → GetAnswer
raw_answer (present b) = served b
raw_answer nil_reader = absent_key
raw_answer file_missing = get_error new_io_retryable_error
raw_answer file_locked = get_error new_lock_error
raw_answer file_failed = get_error new_io_retryable_error

-- Only the missing file of an object that no compaction moves is purged.
unfoldable pub raw_purge : ℤ → ValueMessage → Backing → Option Bytes
raw_purge compact_threshold vm file_missing =
    if ltb_ℤ compact_threshold vm.value_length then some vm.raw_file_path else none
raw_purge compact_threshold vm (present b) = none
raw_purge compact_threshold vm nil_reader = none
raw_purge compact_threshold vm file_locked = none
raw_purge compact_threshold vm file_failed = none

unfoldable pub get_by_type : ℤ → Bool → ValueType → ValueMessage → Backing → GetOutcome
unfolding segment_answer raw_answer raw_purge
get_by_type threshold updater inline vm backing = record {
  answer = served vm.body;
  touched = updater;
  purged = none;
}
get_by_type threshold updater segment vm backing = record {
  answer = segment_answer backing;
  touched = updater;
  purged = none;
}
get_by_type threshold updater raw_file vm backing = record {
  answer = raw_answer backing;
  touched = updater;
  purged = raw_purge threshold vm backing;
}
get_by_type threshold updater (unknown_type n) vm backing = record {
  answer = get_error new_corruption_error;
  touched = updater;
  purged = none;
}

-- An expired row, a tombstone among them, is left to the cleaner.
unfoldable pub get_row : ℤ → Bool → ℕ → ValueMessage → Backing → GetOutcome
unfolding get_by_type
get_row threshold updater now vm backing =
    if ltb_ℤ (pos 0) vm.expiry && leb_ℤ vm.expiry (pos now)
    then record { answer = absent_key; touched = false; purged = none }
    else get_by_type threshold updater vm.value_type vm backing

-- `updater` tells whether there is an access updater.
unfoldable pub get : Codec → ℤ → Bool → ℕ → RowRead → Backing → GetOutcome
unfolding get_row
get c threshold updater now (read_failed e) backing = record {
  answer = get_error (map_rocksdb_error e);
  touched = false;
  purged = none;
}
get c threshold updater now no_row backing = record {
  answer = absent_key;
  touched = false;
  purged = none;
}
get c threshold updater now (row_bytes b) backing = elim (c.unmarshal b) [
  | none ↦ record { answer = get_error new_corruption_error; touched = false; purged = none }
  | some vm ↦ get_row threshold updater now vm backing
]
