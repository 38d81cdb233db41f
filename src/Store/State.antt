-- ===== src/Store/State.antt =====
-- storage/storage.go: what Put and DeleteKey change, and the batch that changes it. RocksDB answers
-- through arguments; a batch is written as a whole or not at all, as RocksDB documents.
use ocache.Base.{
  Bool, Bytes, List, Option, [], if◌then◌else◌, is_empty, none, not, some, ℕ, ◌&&◌, ◌++◌, ◌==◌, ◌∷◌,
}
use ocache.Base.Assoc.{insert, lookup, remove}
use ocache.Base.Int.{pos, ℤ}
use ocache.Keys.Format.{make_bucketed_access_index_key, make_fifo_backref_key, make_fifo_index_key}
use ocache.Segment.Format.{to_int64}
use ocache.Cas.Io.{EvictionPolicy, fifo, lru}
use ocache.Wire.Proto.{Protowire}
use ocache.Wire.Extract.{CleanupFields, decode_value_message_cleanup_fields}

-- The metadata rows by user key, the other rows by their full key, the operands of the delete index in
-- the order of their merges, the files queued for deletion, and the cleaner's total.
pub record Store : Type 0 where
  pub rows : List (Bytes × Bytes)
  pub index : List (Bytes × Bytes)
  pub credits : List (Bytes × ℤ)
  pub queued : List Bytes
  pub total_size : ℤ

pub data IndexChange : Type 0 where
  set_index : Bytes → Bytes → IndexChange
  drop_index : Bytes → IndexChange

-- The row of the key, written or deleted, with what rides in the same batch.
pub record Batch : Type 0 where
  pub row : Option Bytes
  pub batch_credits : List (Bytes × ℤ)
  pub changes : List IndexChange

abbrev pub change_index : List IndexChange → List (Bytes × Bytes) → List (Bytes × Bytes)
change_index [] m = m
change_index (set_index k v ∷ cs) m = change_index cs (insert k v m)
change_index (drop_index k ∷ cs) m = change_index cs (remove k m)

abbrev pub set_row : Bytes → Option Bytes → List (Bytes × Bytes) → List (Bytes × Bytes)
set_row key none m = remove key m
set_row key (some b) m = insert key b m

abbrev pub write_batch : Bytes → Batch → Store → Store
write_batch key batch s = record s {
  rows = set_row key batch.row s.rows;
  index = change_index batch.changes s.index;
  credits = s.credits ++ batch.batch_credits;
}

-- The numbers of storage.proto.
abbrev pub raw_file_number : ℕ
raw_file_number = 1

abbrev pub segment_number : ℕ
segment_number = 2

abbrev pub length_of : CleanupFields → ℤ
length_of fields = to_int64 fields.value_length

abbrev pub decoded : Option (Option CleanupFields) → Option CleanupFields
decoded none = none
decoded (some o) = o

abbrev pub decode_row : Protowire → Option Bytes → Option CleanupFields
decode_row pw none = none
decode_row pw (some b) = decoded (decode_value_message_cleanup_fields pw b)

-- A read that fails counts as no row.
unfoldable pub existing_value : Protowire → Bool → Bytes → Store → Option CleanupFields
existing_value pw reads key s = if reads then decode_row pw (lookup key s.rows) else none

-- The dead bytes of a segment's value, which ride in the batch.
unfoldable pub segment_credit : Option CleanupFields → List (Bytes × ℤ)
segment_credit none = []
segment_credit (some f) =
    if (f.value_type == segment_number) && not (is_empty f.segment_path)
    then (f.segment_path, length_of f) ∷ []
    else []

-- The file of a raw value, which is queued behind the commit.
unfoldable pub dead_file : Option CleanupFields → List Bytes
dead_file none = []
dead_file (some f) = if f.value_type == raw_file_number then f.raw_file_path ∷ [] else []

abbrev pub size_of : Option CleanupFields → ℤ
size_of none = pos 0
size_of (some f) = length_of f

-- The entry that a back-reference names; a read that fails names none.
abbrev pub old_entry : Bool → Bytes → Store → List IndexChange
old_entry reads backref s =
    if reads
    then elim (lookup backref s.index) [ none ↦ [] | some entry ↦ drop_index entry ∷ [] ]
    else []

unfoldable pub write_fifo_index_entry : Bool → Bytes → ℕ → Store → List IndexChange
write_fifo_index_entry reads key now s =
    old_entry reads (make_fifo_backref_key key) s
    ++ (set_index (make_fifo_index_key key now) []
        ∷ set_index (make_fifo_backref_key key) (make_fifo_index_key key now)
        ∷ [])

abbrev pub backref_of : EvictionPolicy → Bytes → Bytes
backref_of fifo key = make_fifo_backref_key key
backref_of lru key = make_bucketed_access_index_key key

unfoldable pub stage_eviction_index_deletes :
    EvictionPolicy → Bool → Bytes → Store → List IndexChange
stage_eviction_index_deletes policy reads key s =
    old_entry reads (backref_of policy key) s ++ drop_index (backref_of policy key) ∷ []
