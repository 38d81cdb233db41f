-- ===== src/Segment/Recover.antt =====
-- storage/segment: the iterator of segment.go, and validateOpenSegment of manager.go, which finds the end
-- of the data of a segment that was open when the process ended. The checksum is hash/crc32's. The reads,
-- the truncation and the seek are taken to succeed where their offsets are not negative.
use ocache.Base.{
  Bytes, Option, drop, if◌then◌else◌, is_empty, leb, length, ltb, none, not, some, suc, zero, ℕ,
  ◌%◌, ◌&&◌, ◌+◌, ◌==◌, ◌^◌, ◌||◌,
}
use ocache.Keys.Text.{int64_limit}
use ocache.Segment.Format.{
  HeaderRead, ValueHeader, end_of_file, field, header, invalid_header, read_value_header_at,
  segment_footer_size, value_header_size,
}
use ocache.Segment.Write.{File, Segment, seek, truncate}

pub record EntryInfo : Type 0 where
  pub entry_key : Bytes
  pub entry_offset : ℕ
  pub head : ValueHeader

-- The next entry, or the error at which the scan stops, io.EOF among them.
pub data Next : Type 0 where
  entry : EntryInfo → Next
  stops : Next

-- The key is read in full or not at all.
unfoldable pub with_key : Bytes → ℕ → ValueHeader → Next
with_key file at h =
    let key : Bytes = field (at + value_header_size) h.key_len file in
    if ltb (length key) h.key_len
    then stops
    else entry (record { entry_key = key; entry_offset = at; head = h })

unfoldable pub next_header : Bytes → ℕ → HeaderRead → Next
unfolding with_key
next_header file at (header h) = with_key file at h
next_header file at end_of_file = stops
next_header file at invalid_header = stops

-- The last 20 bytes are not looked at.
unfoldable pub next : Bytes → ℕ → Next
unfolding next_header
next file at =
    if leb (length file) (at + segment_footer_size)
    then stops
    else next_header file at (read_value_header_at file at)

pub data Scanned : Type 0 where
  -- size, entries and value bytes
  recovered : ℕ → ℕ → ℕ → Scanned
  load_failed out_of_fuel : Scanned

abbrev pub entry_total : ValueHeader → ℕ
entry_total h = h.header_size + h.value_len

-- What is left to the entry at `at`: `rest` is the scan behind it. A total that leaves int64 wraps, so
-- that the size is not checked; the checksum is then taken to the end of the file, and the next offset,
-- which is negative, is an error.
unfoldable pub judge : (Bytes → ℕ) → Bytes → ℕ → ℕ → ℕ → ValueHeader → Scanned → Scanned
judge crc file at entries data_bytes h rest =
    if leb int64_limit (at + entry_total h)
    then (if (h.checksum == 0) || (crc (drop (at + h.header_size) file) == h.checksum)
        then load_failed
        else recovered at entries data_bytes)
    else if ltb (length file) (at + entry_total h)
    then recovered at entries data_bytes
    else if not (h.checksum == 0)
        && not (crc (field (at + h.header_size) h.value_len file) == h.checksum)
    then recovered at entries data_bytes
    else rest

unfoldable pub judge_next : (Bytes → ℕ) → Bytes → ℕ → ℕ → ℕ → Next → Scanned → Scanned
unfolding judge
judge_next crc file at entries data_bytes stops rest = recovered at entries data_bytes
judge_next crc file at entries data_bytes (entry e) rest =
    if (e.head.value_len == 0) || is_empty e.entry_key
    then recovered at entries data_bytes
    else judge crc file at entries data_bytes e.head rest

-- Where the iterator stands after an entry, and its value's length.
abbrev pub total_of : Next → ℕ
total_of stops = 0
total_of (entry e) = entry_total e.head

abbrev pub value_of_next : Next → ℕ
value_of_next stops = 0
value_of_next (entry e) = e.head.value_len

unfoldable pub scan_entries : (Bytes → ℕ) → ℕ → Bytes → ℕ → ℕ → ℕ → Scanned
unfolding next judge_next
scan_entries crc zero file at entries data_bytes = out_of_fuel
scan_entries crc (suc fuel) file at entries data_bytes =
    let n : Next = next file at in
    let rest : Scanned =
      scan_entries crc fuel file (at + total_of n) ((entries + 1) % 2 ^ 32)
        (data_bytes + value_of_next n) in
    judge_next crc file at entries data_bytes n rest

-- The file is cut where the data ends, and the segment goes on from there.
abbrev pub go_on : Scanned → File → Segment → Option Segment
go_on (recovered size entries data_bytes) f seg = some (record seg {
  size = size;
  file = some (seek size (truncate size f));
  num_entries = entries;
  data_bytes = data_bytes;
})
go_on load_failed f seg = none
go_on out_of_fuel f seg = none

-- Every entry takes at least 19 bytes, so a step per byte and one more are enough.
unfoldable pub scan_file : (Bytes → ℕ) → Bytes → Scanned
unfolding scan_entries
scan_file crc file = scan_entries crc (suc (length file)) file 0 0 0

unfoldable pub validate_open_segment : (Bytes → ℕ) → File → Segment → Option Segment
unfolding scan_file
validate_open_segment crc f seg = go_on (scan_file crc f.content) f seg
