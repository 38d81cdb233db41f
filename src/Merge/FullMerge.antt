-- ===== src/Merge/FullMerge.antt =====
-- storage/merge/operator.go and operands.go over bytes: FullMerge, its two strategies, and the
-- operands that callers build. `none` is the result (nil, false).
use ocache.Base.{
  Bytes, List, Option, [], drop, if◌then◌else◌, length, none, some, suc, take, zero, ℕ, ◌%◌, ◌*◌,
  ◌++◌, ◌+◌, ◌/◌, ◌==◌, ◌^◌, ◌∷◌,
}
use ocache.Keys.Format.{is_delete_index_key, is_metadata_key}
use ocache.Merge.Row.{ValueMessage, raw_file, zero_message}
use ocache.Merge.Operator.{apply_operand}
use ocache.Merge.Codec.{Codec, DeleteIndexEntry, expired_sentinel}

abbrev pub u64 : ℕ
u64 = 2 ^ 64

-- binary.LittleEndian over `w` bytes.
unfoldable pub put_uint : ℕ → ℕ → Bytes
put_uint zero v = []
put_uint (suc w) v = (v % 256) ∷ put_uint w (v / 256)

unfoldable pub get_uint : Bytes → ℕ
get_uint [] = 0
get_uint (b ∷ bs) = b + 256 * get_uint bs

-- The arguments are bit patterns of int64 values.
unfoldable pub make_delete_index_operand : ℕ → ℕ → Bytes
unfolding put_uint
make_delete_index_operand deleted_entries deleted_bytes =
    put_uint 8 deleted_entries ++ put_uint 8 deleted_bytes

unfoldable pub add_delete_operand : DeleteIndexEntry → Bytes → DeleteIndexEntry
unfolding get_uint
add_delete_operand entry operand =
    if length operand == 16
    then record {
      deleted_entries = (entry.deleted_entries + get_uint (take 8 operand)) % u64;
      deleted_bytes = (entry.deleted_bytes + get_uint (drop 8 operand)) % u64;
    }
    else entry

unfoldable pub add_delete_operands : DeleteIndexEntry → List Bytes → DeleteIndexEntry
add_delete_operands entry [] = entry
add_delete_operands entry (o ∷ os) = add_delete_operands (add_delete_operand entry o) os

abbrev pub no_deletions : DeleteIndexEntry
no_deletions = record { deleted_entries = 0; deleted_bytes = 0 }

-- The last of the operands, or the existing value.
unfoldable pub last_or : Bytes → List Bytes → Bytes
last_or b [] = b
last_or b (o ∷ os) = last_or o os

module _ (c : Codec) where
  unfoldable pub make_raw_file_purge_operand : Bytes → Option Bytes
  make_raw_file_purge_operand path =
      c.marshal (record zero_message { value_type = raw_file; raw_file_path = path })

  -- An existing value that cannot be read counts as no deletions.
  unfoldable pub start_entry : Bytes → DeleteIndexEntry
  start_entry [] = no_deletions
  start_entry (b ∷ bs) = elim (c.unmarshal_entry (b ∷ bs)) [ none ↦ no_deletions | some e ↦ e ]

  unfoldable pub merge_delete_index : Bytes → List Bytes → Option Bytes
  unfolding start_entry
  merge_delete_index existing operands =
      c.marshal_entry (add_delete_operands (start_entry existing) operands)

  -- An operand that cannot be read is skipped.
  unfoldable pub apply_bytes : Option ValueMessage → Bytes → Option ValueMessage
  apply_bytes base o = elim (c.unmarshal o) [ none ↦ base | some op ↦ apply_operand base op ]

  unfoldable pub resolve_bytes : Option ValueMessage → List Bytes → Option ValueMessage
  resolve_bytes base [] = base
  resolve_bytes base (o ∷ os) = resolve_bytes (apply_bytes base o) os

  unfoldable pub finish_merge : Option ValueMessage → Option Bytes
  finish_merge none = some expired_sentinel
  finish_merge (some base) = c.marshal base

  unfoldable pub merge_metadata_cas : Bytes → List Bytes → Option Bytes
  unfolding finish_merge
  merge_metadata_cas [] operands = finish_merge (resolve_bytes none operands)
  merge_metadata_cas (b ∷ bs) operands = elim (c.unmarshal (b ∷ bs)) [
    | none ↦ some (b ∷ bs)
    | some base ↦ finish_merge (resolve_bytes (some base) operands)
  ]

  unfoldable pub full_merge : Bytes → Bytes → List Bytes → Option Bytes
  full_merge key existing operands =
      if is_delete_index_key key
      then merge_delete_index existing operands
      else if is_metadata_key key
      then merge_metadata_cas existing operands
      else some (last_or existing operands)
