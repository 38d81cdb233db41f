-- ===== src/Store/Write.antt =====
-- storage/storage.go: Put with putLow, and DeleteKey. Metrics, the tests' commit hook and the guard that
-- keeps the orphan sweep off a file being written are left out, and the deletion queue takes every file.
use ocache.Base.{
  Bool, Bytes, List, Option, [], if◌then◌else◌, length, ltb, none, some, ℕ, ◌++◌, ◌==◌, ◌∷◌,
}
use ocache.Base.Assoc.{lookup}
use ocache.Base.Int.{pos, ℤ, ◌+ℤ◌, ◌-ℤ◌}
use ocache.Keys.Format.{
  make_bucketed_access_index_key, make_bucketed_access_key, make_compaction_key,
}
use ocache.Merge.Row.{ValueMessage, inline, raw_file, zero_message}
use ocache.Merge.Codec.{Codec}
use ocache.Cas.Io.{Settings, fifo, lru}
use ocache.Cas.Lifetime.{expiry_after}
use ocache.Cas.Put.{Spill, gone_or_denied, is_medium, no_space, spill_failed, written}
use ocache.Wire.Proto.{Protowire}
use ocache.Wire.Extract.{CleanupFields}
use ocache.Store.Errors.{
  RocksError, StorageError, map_rocksdb_error, new_internal_error, new_io_error,
  new_io_retryable_error, new_storage_full_error,
}
use ocache.Store.State.{
  Batch, IndexChange, Store, dead_file, decode_row, existing_value, segment_credit, set_index,
  size_of, stage_eviction_index_deletes, write_batch, write_fifo_index_entry,
}

-- What the world answers: the body and whether reading it failed, the clock, the spill, whether the reads
-- of the old row and of the back-reference succeed, and the error of the commit.
pub record PlainIo : Type 0 where
  pub body : Bytes
  pub body_failed : Bool
  pub now : ℕ
  pub compaction_now : ℕ
  pub index_now : ℕ
  pub spill : Spill
  pub reads : Bool
  pub backref_reads : Bool
  pub commit : Option RocksError

-- The error, if any, and the store that is left.
pub record PutResult : Type 0 where
  pub error : Option StorageError
  pub left : Store

module _ (codec : Codec) (pw : Protowire) (format_hour : ℕ → Bytes) (cfg : Settings) where
  -- The row of the eviction index under a disk limit.
  abbrev pub eviction_changes : PlainIo → Bytes → Store → List IndexChange
  eviction_changes io key s =
      if ltb 0 cfg.max_disk_usage
      then elim cfg.eviction_policy [
        | fifo ↦ write_fifo_index_entry io.backref_reads key io.index_now s
        | lru ↦
            set_index (make_bucketed_access_key format_hour key io.index_now) []
            ∷ set_index (make_bucketed_access_index_key key)
                (make_bucketed_access_key format_hour key io.index_now)
            ∷ []
      ]
      else []

  abbrev pub compaction_changes : PlainIo → Bytes → Bytes → ℤ → List IndexChange
  compaction_changes io key path n =
      if is_medium cfg n
      then set_index (make_compaction_key io.compaction_now key) path ∷ []
      else []

  -- The replaced row's length, with the store behind the commit, or the error of the commit.
  unfoldable pub put_low :
      PlainIo → Bytes → Bytes → Bytes → ℤ → Store → Option RocksError × (ℤ × Store)
  put_low io key val path n s =
      let prev : Option CleanupFields = existing_value pw io.reads key s in
      elim io.commit [
        | some e ↦ (some e, (pos 0, s))
        | none ↦
            let batch : Batch = record {
              row = some val;
              batch_credits = segment_credit prev;
              changes = compaction_changes io key path n ++ eviction_changes io key s;
            } in
            let s' : Store = write_batch key batch s in
            (none, (size_of prev, record s' { queued = s'.queued ++ dead_file prev }))
      ]

  -- The size of the new value takes the place of the old one's, or the spilled file is queued.
  unfoldable pub finish_put : ℤ → List Bytes → Option RocksError × (ℤ × Store) → PutResult
  finish_put n spilled (none, (prev_size, s)) = record {
    error = none;
    left = record s { total_size = s.total_size +ℤ (n -ℤ prev_size) };
  }
  finish_put n spilled (some e, (prev_size, s)) = record {
    error = some (map_rocksdb_error e);
    left = record s { queued = s.queued ++ spilled };
  }

  unfoldable pub store_row : PlainIo → Bytes → ValueMessage → Bytes → List Bytes → Store → PutResult
  unfolding put_low finish_put
  store_row io key vm path spilled s = elim (codec.marshal vm) [
    | none ↦ record {
      error = some new_internal_error;
      left = record s { queued = s.queued ++ spilled };
    }
    | some val ↦ finish_put vm.value_length spilled (put_low io key val path vm.value_length s)
  ]

  unfoldable pub put_large : PlainIo → Bytes → ℤ → Spill → Store → PutResult
  unfolding store_row
  put_large io key expiry no_space s = record { error = some new_storage_full_error; left = s }
  put_large io key expiry gone_or_denied s = record {
    error = some new_io_retryable_error;
    left = s;
  }
  put_large io key expiry spill_failed s = record { error = some new_io_error; left = s }
  put_large io key expiry (written path checksum n) s =
      store_row io key
        (record zero_message {
          raw_file_path = path;
          expiry = expiry;
          value_length = n;
          checksum = checksum;
          value_type = raw_file;
        })
        path (path ∷ []) s

  -- A ttl that is not positive is the default one; `now` is in nanoseconds.
  unfoldable pub expiry_of : ℕ → ℕ → ℤ
  expiry_of now ttl =
      let t : ℕ = if ttl == 0 then cfg.default_ttl else ttl in
      if t == 0 then pos 0 else expiry_after now t

  unfoldable pub put : PlainIo → Bytes → ℕ → Store → PutResult
  unfolding put_large store_row
  put io key ttl s =
      if io.body_failed
      then record { error = some new_io_error; left = s }
      else if ltb cfg.inline_threshold (length io.body)
      then put_large io key (expiry_of io.now ttl) io.spill s
      else store_row io key
          (record zero_message {
            body = io.body;
            expiry = expiry_of io.now ttl;
            value_length = pos (length io.body);
            value_type = inline;
          })
          [] [] s

  -- The size falls before the batch is written. A file that the batch did not free is not queued.
  unfoldable pub remove_row :
      Bool → Option RocksError → Bytes → Option CleanupFields → Store → PutResult
  remove_row backref_reads commit key prev s =
      let s1 : Store = record s { total_size = s.total_size -ℤ size_of prev } in
      elim commit [
        | some e ↦ record { error = some (map_rocksdb_error e); left = s1 }
        | none ↦
            let batch : Batch = record {
              row = none;
              batch_credits = segment_credit prev;
              changes = stage_eviction_index_deletes cfg.eviction_policy backref_reads key s;
            } in
            let s2 : Store = write_batch key batch s1 in
            record { error = none; left = record s2 { queued = s2.queued ++ dead_file prev } }
      ]

  -- `read` is the error of the read of the row.
  unfoldable pub delete_key :
      Option RocksError → Bool → Option RocksError → Bytes → Store → PutResult
  unfolding remove_row
  delete_key (some e) backref_reads commit key s = record {
    error = some (map_rocksdb_error e);
    left = s;
  }
  delete_key none backref_reads commit key s = elim (lookup key s.rows) [
    | none ↦ record { error = none; left = s }
    | some b ↦ remove_row backref_reads commit key (decode_row pw (some b)) s
  ]
