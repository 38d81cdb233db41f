-- ===== src/Wire/Agree.antt =====
-- storage/value_wire.go: what two extractors read off the same text.
use mathlib.Core.Option
use ocache.Base.{
  Bool-cases, Bytes, arith, if◌then◌else◌, inl, inr, length, ◌%◌, ◌&&◌, ◌==◌, ◌^◌, ◌≡◌,
}
use ocache.Wire.Proto.{IsProtowire, Protowire, bytes_type, is_varint, other_type, varint_type}
use ocache.Wire.Extract.{
  CleanupFields, SegmentRef, SizeAndRawPath, cleanup_field, decode_value_message_cleanup_fields,
  is_path, no_fields, segment_ref_field, size_and_raw_path_field, value_length_field,
  value_message_segment_ref, value_message_size_and_raw_path, value_message_value_length,
  value_raw_path_field, value_seg_path_field, varint_field,
}
use ocache.Wire.Project.{
  Simulates, read_path-map, read_varint-map, read_varint-skip, scan-iterate-map, skip_field-map,
}

segment_ref_field-Simulates :
    (pw : Protowire)
    → Simulates pw (λ r. r.value_length) (segment_ref_field pw) (varint_field pw value_length_field)
unfolding segment_ref_field varint_field
segment_ref_field-Simulates pw a num typ rest =
    elim (Bool-cases ((num == value_length_field) && is_varint typ)) [
      | inl yea ↦ simp yea (read_varint-map pw (λ r. r.value_length) _ rest)
      | inr nay ↦ elim (Bool-cases (is_path num typ)) [
        | inl path ↦
            simp (nay, path) (read_path-map pw (λ r. r.value_length) _ _ rest (λ p. ground arith))
        | inr other ↦ simp (nay, other) (skip_field-map pw (λ r. r.value_length) num typ a rest)
      ]
    ]

size_and_raw_path_field-Simulates :
    (pw : Protowire)
    → Simulates pw
        (λ r. r.value_length)
        (size_and_raw_path_field pw)
        (varint_field pw value_length_field)
unfolding size_and_raw_path_field varint_field
size_and_raw_path_field-Simulates pw a num typ rest =
    elim (Bool-cases ((num == value_length_field) && is_varint typ)) [
      | inl yea ↦ simp yea (read_varint-map pw (λ r. r.value_length) _ rest)
      | inr nay ↦ elim (Bool-cases (is_path num typ)) [
        | inl path ↦
            simp (nay, path) (read_path-map pw (λ r. r.value_length) _ _ rest (λ p. ground arith))
        | inr other ↦ simp (nay, other) (skip_field-map pw (λ r. r.value_length) num typ a rest)
      ]
    ]

abbrev pub as_segment_ref : CleanupFields → SegmentRef
as_segment_ref c = record { segment_path = c.segment_path; value_length = c.value_length }

abbrev pub as_size_and_raw_path : CleanupFields → SizeAndRawPath
as_size_and_raw_path c = record { value_length = c.value_length; raw_path = c.raw_file_path }

cleanup_field-SegmentRef :
    (pw : Protowire)
    → IsProtowire pw
    → Simulates pw as_segment_ref (cleanup_field pw) (segment_ref_field pw)
unfolding cleanup_field segment_ref_field
cleanup_field-SegmentRef pw law a num varint_type rest = ground (
  arith,
  read_varint-map pw as_segment_ref (λ v. record a { value_type = v % 2 ^ 32 }) rest,
  read_varint-map pw as_segment_ref (λ v. record a { value_length = v }) rest,
  read_varint-skip pw law num (as_segment_ref a) rest,
  skip_field-map pw as_segment_ref num varint_type a rest,
)
cleanup_field-SegmentRef pw law a num bytes_type rest = ground (
  arith,
  read_path-map pw as_segment_ref (λ p. record a { raw_file_path = p })
      (λ p.
        if num == value_seg_path_field
        then record (as_segment_ref a) { segment_path = p }
        else as_segment_ref a)
      rest,
  read_path-map pw as_segment_ref (λ p. record a { segment_path = p })
      (λ p.
        if num == value_seg_path_field
        then record (as_segment_ref a) { segment_path = p }
        else as_segment_ref a)
      rest,
  skip_field-map pw as_segment_ref num bytes_type a rest,
)
cleanup_field-SegmentRef pw law a num (other_type n) rest =
    ground (arith, skip_field-map pw as_segment_ref num (other_type n) a rest)

cleanup_field-SizeAndRawPath :
    (pw : Protowire)
    → IsProtowire pw
    → Simulates pw as_size_and_raw_path (cleanup_field pw) (size_and_raw_path_field pw)
unfolding cleanup_field size_and_raw_path_field
cleanup_field-SizeAndRawPath pw law a num varint_type rest = ground (
  arith,
  read_varint-map pw as_size_and_raw_path (λ v. record a { value_type = v % 2 ^ 32 }) rest,
  read_varint-map pw as_size_and_raw_path (λ v. record a { value_length = v }) rest,
  read_varint-skip pw law num (as_size_and_raw_path a) rest,
  skip_field-map pw as_size_and_raw_path num varint_type a rest,
)
cleanup_field-SizeAndRawPath pw law a num bytes_type rest =
    let put : Bytes → SizeAndRawPath = λ p.
      if num == value_raw_path_field
      then record (as_size_and_raw_path a) { raw_path = p }
      else as_size_and_raw_path a in
    ground (
      arith,
      read_path-map pw as_size_and_raw_path (λ p. record a { raw_file_path = p }) put rest,
      read_path-map pw as_size_and_raw_path (λ p. record a { segment_path = p }) put rest,
      skip_field-map pw as_size_and_raw_path num bytes_type a rest,
    )
cleanup_field-SizeAndRawPath pw law a num (other_type n) rest =
    ground (arith, skip_field-map pw as_size_and_raw_path num (other_type n) a rest)

-- On any text, well-formed or not, the extractors of several fields accept the same texts, and what they
-- read of the length, the raw path and the segment path is the same; their length is that of
-- valueMessageValueLength.
pub decode_value_message_cleanup_fields-agree :
    (pw : Protowire)
    → IsProtowire pw
    → (buf : Bytes)
    → (Option.map (Option.map as_segment_ref) (decode_value_message_cleanup_fields pw buf)
        ≡ value_message_segment_ref pw buf)
      × (Option.map (Option.map as_size_and_raw_path) (decode_value_message_cleanup_fields pw buf)
          ≡ value_message_size_and_raw_path pw buf)
      × (Option.map (Option.map (λ r. r.value_length)) (value_message_segment_ref pw buf)
          ≡ value_message_value_length pw buf)
      × (Option.map (Option.map (λ r. r.value_length)) (value_message_size_and_raw_path pw buf)
          ≡ value_message_value_length pw buf)
unfolding decode_value_message_cleanup_fields value_message_segment_ref
    value_message_size_and_raw_path value_message_value_length
decode_value_message_cleanup_fields-agree pw law buf = (
  scan-iterate-map pw as_segment_ref (cleanup_field pw) (segment_ref_field pw)
      (cleanup_field-SegmentRef pw law) (length buf) no_fields buf,
  scan-iterate-map pw as_size_and_raw_path (cleanup_field pw) (size_and_raw_path_field pw)
      (cleanup_field-SizeAndRawPath pw law) (length buf) no_fields buf,
  scan-iterate-map pw (λ r. r.value_length) (segment_ref_field pw)
      (varint_field pw value_length_field) (segment_ref_field-Simulates pw) (length buf) _ buf,
  scan-iterate-map pw (λ r. r.value_length) (size_and_raw_path_field pw)
      (varint_field pw value_length_field) (size_and_raw_path_field-Simulates pw) (length buf) _
      buf,
)
