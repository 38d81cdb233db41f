-- ===== src/Tests/Store.antt =====
-- Plain writes at concrete inputs: a key that holds a raw file is overwritten, and deleted.
use ocache.Base.{Bytes, [], bytes_eq, codes, false, none, refl, some, true, ℕ, ◌∷◌, ◌≡◌}
use ocache.Base.Int.{pos, ◌-ℤ◌}
use ocache.Base.Assoc.{lookup}
use ocache.Merge.SampleCodec.{sample_codec}
use ocache.Cas.Io.{Settings, fifo}
use ocache.Cas.Put.{written}
use ocache.Wire.Extract.{
  cleanup_field, decode_value_message_cleanup_fields, iterate, read_path, read_tag, read_varint,
  scan, skip_field,
}
use ocache.Tests.Wire.{row, short_wire}
use ocache.Store.Errors.{rocksdb_other}
use ocache.Store.State.{Store, dead_file}
use ocache.Store.Write.{PlainIo, delete_key, remove_row}
use ocache.Store.Settled.{Deleted, delete_key-Deleted}

abbrev hours : ℕ → Bytes
hours t = codes "2026010100"

abbrev settings : Settings
settings = record {
  inline_threshold = 2;
  compact_threshold = pos 1000;
  default_ttl = 0;
  max_disk_usage = 5000;
  eviction_policy = fifo;
}

abbrev store : Store
store = record {
  rows = (codes "k", row) ∷ [];
  index = [];
  credits = [];
  queued = [];
  total_size = pos 9;
}

-- The commit of a large value fails.
abbrev io : PlainIo
io = record {
  body = codes "hello";
  body_failed = false;
  now = 100;
  compaction_now = 100;
  index_now = 100;
  spill = written (codes "r/2") 77 (pos 5);
  reads = true;
  backref_reads = true;
  commit = some rocksdb_other;
}

delete_key-Deleted_example :
    Deleted sample_codec short_wire hours settings
      (codes "k")
      store
      (lookup (codes "k") store.rows)
      (delete_key sample_codec short_wire hours settings none true none (codes "k") store).error
      (delete_key sample_codec short_wire hours settings none true none (codes "k") store).left
delete_key-Deleted_example =
    delete_key-Deleted sample_codec short_wire hours settings (codes "k") store none true none

-- The file of the deleted value is queued.
deleted_file :
    (delete_key sample_codec short_wire hours settings none true none (codes "k") store).left.queued
    ≡ codes "r/1" ∷ []
unfolding delete_key remove_row lookup bytes_eq dead_file decode_value_message_cleanup_fields scan
    iterate read_tag cleanup_field read_varint read_path skip_field
deleted_file = refl

-- A delete whose commit fails lowers the total although the row stays.
size_drifts :
    (delete_key sample_codec short_wire hours settings none true
      (some rocksdb_other)
      (codes "k")
      store).left.total_size
    ≡ pos 0
unfolding delete_key remove_row lookup bytes_eq decode_value_message_cleanup_fields scan iterate
    read_tag cleanup_field read_varint read_path skip_field ◌-ℤ◌
size_drifts = refl
