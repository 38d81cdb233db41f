-- ===== src/Keys/Format.antt =====
-- storage/keys/keys.go. A key is its bytes; an error is `none`. A timestamp that the program writes is
-- a number of nanoseconds since 1970; one that it parses is an int64. `format_hour` stands for
-- time.Format with "2006010215" in the process's time zone.
use ocache.Base.{
  Bool, Bytes, Option, [], codes, drop, false, if◌then◌else◌, length, ltb, none, not, some, take, ℕ,
  ◌++◌, ◌+◌, ◌==◌, ◌∷◌,
}
use ocache.Base.Int.{ℤ}
use ocache.Keys.Text.{has_prefix, pad_decimal, scan_int, split_first}

abbrev pub metadata_prefix : Bytes
metadata_prefix = codes "!meta/"

abbrev pub version_hwm_key : Bytes
version_hwm_key = codes "!verhwm"

abbrev pub access_bucket_prefix : Bytes
access_bucket_prefix = codes "!access_bucket/"

abbrev pub access_bucket_index_prefix : Bytes
access_bucket_index_prefix = codes "!access_bucket_index/"

abbrev pub compaction_index_prefix : Bytes
compaction_index_prefix = codes "!compact/"

abbrev pub sync_index_prefix : Bytes
sync_index_prefix = codes "!sync/"

abbrev pub deletion_queue_prefix : Bytes
deletion_queue_prefix = codes "!del/"

abbrev pub delete_index_prefix : Bytes
delete_index_prefix = codes "!delete:segment/"

abbrev pub fifo_index_prefix : Bytes
fifo_index_prefix = codes "!fifo/"

abbrev pub fifo_backref_prefix : Bytes
fifo_backref_prefix = codes "!fifo_ref/"

unfoldable pub make_metadata_key : Bytes → Bytes
make_metadata_key user_key = metadata_prefix ++ user_key

unfoldable pub make_compaction_key : ℕ → Bytes → Bytes
make_compaction_key ts key = compaction_index_prefix ++ (pad_decimal 20 ts ++ b'|' ∷ key)

unfoldable pub parse_compaction_index_row : Bytes → Bytes → Option (Bytes × Bytes)
parse_compaction_index_row [] v = none
parse_compaction_index_row (c ∷ k) v =
    if c == b'|'
    then none
    else elim (split_first b'|' k) [ none ↦ none | some (_, user_key) ↦ some (user_key, v) ]

unfoldable pub is_metadata_key : Bytes → Bool
is_metadata_key key = has_prefix metadata_prefix key

unfoldable pub extract_user_key : Bytes → Bytes
unfolding is_metadata_key
extract_user_key key = if is_metadata_key key then drop (length metadata_prefix) key else key

unfoldable pub is_internal_key : Bytes → Bool
is_internal_key [] = false
is_internal_key (c ∷ key) = c == b'!'

-- The part of a key behind a "<20 digits>/" stamp, and the stamp.
unfoldable pub parse_stamped : Bytes → Option (ℤ × Bytes)
parse_stamped remainder = elim (split_first b'/' remainder) [
  | none ↦ none
  | some (stamp, path) ↦ elim (scan_int 20 stamp) [ none ↦ none | some ts ↦ some (ts, path) ]
]

-- `now` is time.Now().UnixNano().
unfoldable pub make_sync_key : ℕ → Bytes → Bytes
make_sync_key now path = sync_index_prefix ++ (pad_decimal 20 now ++ b'/' ∷ path)

unfoldable pub is_sync_key : Bytes → Bool
is_sync_key key = has_prefix sync_index_prefix key

unfoldable pub parse_sync_key : Bytes → Option (ℤ × Bytes)
unfolding is_sync_key parse_stamped
parse_sync_key key =
    if is_sync_key key then parse_stamped (drop (length sync_index_prefix) key) else none

unfoldable pub make_deletion_queue_key : ℕ → Bytes → Bytes
make_deletion_queue_key ts path = deletion_queue_prefix ++ (pad_decimal 20 ts ++ b'/' ∷ path)

unfoldable pub is_deletion_queue_key : Bytes → Bool
is_deletion_queue_key key = has_prefix deletion_queue_prefix key

unfoldable pub parse_deletion_queue_key : Bytes → Option (ℤ × Bytes)
unfolding is_deletion_queue_key parse_stamped
parse_deletion_queue_key key =
    if is_deletion_queue_key key
    then parse_stamped (drop (length deletion_queue_prefix) key)
    else none

unfoldable pub make_delete_index_key : Bytes → Bytes
make_delete_index_key segment_path = delete_index_prefix ++ segment_path

unfoldable pub is_delete_index_key : Bytes → Bool
is_delete_index_key key = has_prefix delete_index_prefix key

unfoldable pub extract_segment_path : Bytes → Bytes
unfolding is_delete_index_key
extract_segment_path key =
    if is_delete_index_key key then drop (length delete_index_prefix) key else []

unfoldable pub make_fifo_index_key : Bytes → ℕ → Bytes
make_fifo_index_key key write_time = fifo_index_prefix ++ (pad_decimal 19 write_time ++ b'/' ∷ key)

unfoldable pub make_fifo_backref_key : Bytes → Bytes
make_fifo_backref_key key = fifo_backref_prefix ++ key

-- The byte at an index, where it is in range.
abbrev pub byte_is : ℕ → Bytes → ℕ → Bool
byte_is i s c = elim (drop i s) [ [] ↦ false | d ∷ _ ↦ d == c ]

unfoldable pub parse_fifo_index_time : Bytes → Option ℤ
parse_fifo_index_time s =
    let p : ℕ = length fifo_index_prefix in
    if ltb (length s) (p + 20)
    then none
    else if not (has_prefix fifo_index_prefix s)
    then none
    else if not (byte_is (p + 19) s b'/')
    then none
    else scan_int (length s) (take 19 (drop p s))

unfoldable pub parse_fifo_index_key : Bytes → Option Bytes
parse_fifo_index_key s =
    let rest : Bytes = drop (length fifo_index_prefix) s in
    if not (has_prefix fifo_index_prefix s)
    then none
    else if ltb (length rest) 20
    then none
    else if not (byte_is 19 rest b'/')
    then none
    else some (drop 20 rest)

unfoldable pub make_bucketed_access_index_key : Bytes → Bytes
make_bucketed_access_index_key key = access_bucket_index_prefix ++ key

unfoldable pub is_bucketed_access_key : Bytes → Bool
is_bucketed_access_key key = has_prefix access_bucket_prefix key

-- Neither the prefix nor a separator is looked at here.
unfoldable pub parse_bucketed_access_key : Bytes → Option (Bytes × ℤ)
parse_bucketed_access_key key =
    let bucketed : Bytes = drop (length access_bucket_prefix) key in
    let stamped : Bytes = drop 11 bucketed in
    if ltb (length key) (length access_bucket_prefix)
    then none
    else if ltb (length bucketed) 11
    then none
    else if ltb (length stamped) 20
    then none
    else elim (scan_int (length key) (take 19 stamped)) [
      | none ↦ none
      | some at ↦ some (drop 20 stamped, at)
    ]

unfoldable pub extract_access_bucket_from_key : Bytes → Bytes
extract_access_bucket_from_key key =
    let n : ℕ = length access_bucket_prefix + 11 in if ltb (length key) n then [] else take n key

module _ (format_hour : ℕ → Bytes) where
  unfoldable pub get_bucketed_access_key : ℕ → Bytes
  get_bucketed_access_key at = access_bucket_prefix ++ (format_hour at ++ b'/' ∷ [])

  unfoldable pub make_bucketed_access_key : Bytes → ℕ → Bytes
  unfolding get_bucketed_access_key
  make_bucketed_access_key key at = get_bucketed_access_key at ++ (pad_decimal 19 at ++ b'/' ∷ key)

-- storage/cas.go: the write time in an eviction-index entry of either policy.
unfoldable pub eviction_entry_time : Bytes → Option ℤ
eviction_entry_time entry =
    if is_bucketed_access_key entry
    then elim (parse_bucketed_access_key entry) [ none ↦ none | some (_, at) ↦ some at ]
    else parse_fifo_index_time entry
