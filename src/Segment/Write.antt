-- ===== src/Segment/Write.antt =====
-- storage/segment/segment.go: the segment and WriteEntry, with what the file system answers.
use ocache.Base.{
  Bool, Bytes, Option, [], drop, if◌then◌else◌, length, none, not, some, suc, take, zero, ℕ, ◌%◌,
  ◌++◌, ◌+◌, ◌-◌, ◌==◌, ◌^◌, ◌||◌, ◌∷◌,
}
use ocache.Base.Int.{eqb_ℤ, pos}
use ocache.Merge.Row.{ValueMessage, is_raw_file, is_segment}
use ocache.Segment.Format.{
  build_value_header, calculate_value_header_size, current_value_header_version,
}

abbrev pub zeros : ℕ → Bytes
zeros zero = []
zeros (suc n) = 0 ∷ zeros n

-- An os.File that is open for writing: its bytes and its offset. Past the end it is filled with zeros.
pub record File : Type 0 where
  pub content : Bytes
  pub offset : ℕ

abbrev pub pad_to : ℕ → Bytes → Bytes
pad_to n content = content ++ zeros (n - length content)

unfoldable pub write_file : Bytes → File → File
write_file s f = record {
  content =
      take f.offset (pad_to f.offset f.content) ++ (s ++ drop (f.offset + length s) f.content);
  offset = f.offset + length s;
}

unfoldable pub truncate : ℕ → File → File
truncate n f = record f { content = take n (pad_to n f.content) }

abbrev pub seek : ℕ → File → File
seek n f = record f { offset = n }

-- `file` is nil once the segment is closed, and `reserved_by` is empty where nobody has reserved it.
pub record Segment : Type 0 where
  pub path : Bytes
  pub size : ℕ
  pub file : Option File
  pub num_entries : ℕ
  pub data_bytes : ℕ
  pub version : ℕ
  pub max_supported_size : ℕ
  pub reserved_by : Bytes

-- What the calls of one WriteEntry answer: the header's bytes that were written and its error, the bytes
-- that were copied from the reader and its error, and whether the calls of a rollback succeed.
pub record WriteIo : Type 0 where
  pub header_written : ℕ
  pub header_failed : Bool
  pub copied : Bytes
  pub copy_failed : Bool
  pub truncates : Bool
  pub seeks : Bool

pub data WriteError : Type 0 where
  wrong_value_type segment_closed header_error short_header copy_error wrong_length : WriteError
  truncate_error seek_error : WriteError

-- The entry's offset in the segment, or the error.
pub data WriteResult : Type 0 where
  written_at : ℕ → WriteResult
  refused : WriteError → WriteResult

unfoldable pub roll_back : WriteIo → WriteError → File → Segment → WriteResult × Segment
roll_back io e f seg =
    if not io.truncates
    then (refused truncate_error, record seg { file = some f })
    else if not io.seeks
    then (refused seek_error, record seg { file = some (truncate seg.size f) })
    else (refused e, record seg { file = some (seek seg.size (truncate seg.size f)) })

-- The entry is counted once all of it is written.
abbrev pub counted : Bytes → Bytes → File → Segment → Segment
counted key value f seg = record seg {
  file = some f;
  size = seg.size + (calculate_value_header_size key + length value);
  num_entries = (seg.num_entries + 1) % 2 ^ 32;
  data_bytes = seg.data_bytes + length value;
}

unfoldable pub write_payload :
    WriteIo → Bytes → ValueMessage → File → Segment → WriteResult × Segment
unfolding roll_back
write_payload io key vm f seg =
    if io.copy_failed
    then roll_back io copy_error (write_file io.copied f) seg
    else if not (eqb_ℤ (pos (length io.copied)) vm.value_length)
    then roll_back io wrong_length (write_file io.copied f) seg
    else (written_at seg.size, counted key io.copied (write_file io.copied f) seg)

unfoldable pub write_open : WriteIo → Bytes → ValueMessage → File → Segment → WriteResult × Segment
unfolding roll_back write_payload
write_open io key vm f seg =
    let hdr : Bytes =
      build_value_header key vm.value_length vm.checksum current_value_header_version in
    let f1 : File = write_file (take io.header_written hdr) f in
    if io.header_failed
    then roll_back io header_error f1 seg
    else if not (io.header_written == length hdr)
    then roll_back io short_header f1 seg
    else write_payload io key vm f1 seg

unfoldable pub write_to :
    WriteIo → Bytes → ValueMessage → Option File → Segment → WriteResult × Segment
unfolding write_open
write_to io key vm none seg = (refused segment_closed, seg)
write_to io key vm (some f) seg = write_open io key vm f seg

unfoldable pub write_entry : WriteIo → Bytes → ValueMessage → Segment → WriteResult × Segment
unfolding write_to
write_entry io key vm seg =
    if not (is_raw_file vm.value_type || is_segment vm.value_type)
    then (refused wrong_value_type, seg)
    else write_to io key vm seg.file seg

abbrev pub new_segment : Bytes → ℕ → ℕ → ℕ → ℕ → Segment
new_segment path entries data_bytes size max_supported_size = record {
  path = path;
  size = size;
  file = none;
  num_entries = entries;
  data_bytes = data_bytes;
  version = 1;
  max_supported_size = max_supported_size;
  reserved_by = [];
}

-- An open file of the configured size, reserved for the caller.
abbrev pub new_segment_with_reservation : Bytes → ℕ → Bytes → Segment
new_segment_with_reservation path segment_size caller_id = record {
  path = path;
  size = 0;
  file = some (truncate segment_size (record { content = []; offset = 0 }));
  num_entries = 0;
  data_bytes = 0;
  version = 1;
  max_supported_size = segment_size;
  reserved_by = caller_id;
}
