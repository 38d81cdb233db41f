-- ===== src/Store/Errors.antt =====
-- storage/errors/errors.go: the kinds of errors and which of them a caller may retry; and the mapping of
-- RocksDB's errors in storage/storage.go. Keys, messages and underlying errors are left out.
use ocache.Base.{Bool, false, true}

pub data ErrorType : Type 0 where
  type_not_found type_invalid_request type_storage_full type_corruption type_temporary : ErrorType
  type_io type_lock type_timeout type_internal : ErrorType

pub record StorageError : Type 0 where
  pub error_type : ErrorType
  pub retryable : Bool

abbrev pub new_not_found_error : StorageError
new_not_found_error = record { error_type = type_not_found; retryable = false }

abbrev pub new_storage_full_error : StorageError
new_storage_full_error = record { error_type = type_storage_full; retryable = false }

abbrev pub new_corruption_error : StorageError
new_corruption_error = record { error_type = type_corruption; retryable = false }

abbrev pub new_temporary_error : StorageError
new_temporary_error = record { error_type = type_temporary; retryable = true }

abbrev pub new_io_error : StorageError
new_io_error = record { error_type = type_io; retryable = false }

abbrev pub new_io_retryable_error : StorageError
new_io_retryable_error = record { error_type = type_io; retryable = true }

abbrev pub new_internal_error : StorageError
new_internal_error = record { error_type = type_internal; retryable = false }

-- The texts of RocksDB's errors that the code tells apart.
pub data RocksError : Type 0 where
  rocksdb_not_found rocksdb_corruption rocksdb_io_error rocksdb_other : RocksError

unfoldable pub map_rocksdb_error : RocksError → StorageError
map_rocksdb_error rocksdb_not_found = new_not_found_error
map_rocksdb_error rocksdb_corruption = new_corruption_error
map_rocksdb_error rocksdb_io_error = new_io_error
map_rocksdb_error rocksdb_other = new_temporary_error

abbrev pub new_lock_error : StorageError
new_lock_error = record { error_type = type_lock; retryable = true }
