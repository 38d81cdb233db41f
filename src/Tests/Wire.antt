-- ===== src/Tests/Wire.antt =====
-- The extractors at concrete inputs, over the wire format of one-byte tags, numbers and lengths.
use mathlib.Core.Option
use ocache.Base.{
  Bool, Bytes, Option, [], arith, codes, if◌then◌else◌, leb, length, ltb, none, refl, some, take,
  true, ℕ, ◌%◌, ◌&&◌, ◌++◌, ◌+◌, ◌/◌, ◌<◌, ◌==◌, ◌∷◌, ◌≡◌,
}
use ocache.Wire.Proto.{IsProtowire, Protowire, WireType, bytes_type, other_type, varint_type}
use ocache.Wire.Extract.{
  CleanupFields, SegmentRef, SizeAndRawPath, cleanup_field, decode_value_message_cleanup_fields,
  iterate, read_path, read_tag, read_varint, scan, skip_field, value_message_segment_ref,
  value_message_size_and_raw_path, value_message_value_length, value_message_varint_field,
}
use ocache.Wire.Agree.{
  as_segment_ref, as_size_and_raw_path, decode_value_message_cleanup_fields-agree,
}
use ocache.Wire.Ends.{extractors_end}

abbrev wire_type : ℕ → WireType
wire_type n = if n == 0 then varint_type else if n == 2 then bytes_type else other_type n

abbrev short_tag : Bytes → Option (ℕ × (WireType × ℕ))
short_tag [] = none
short_tag (b ∷ bs) = some (b / 8, (wire_type (b % 8), 1))

abbrev short_varint : Bytes → Option (ℕ × ℕ)
short_varint [] = none
short_varint (b ∷ bs) = if ltb b 128 then some (b, 1) else none

abbrev short_bytes : Bytes → Option (Bytes × ℕ)
short_bytes [] = none
short_bytes (n ∷ bs) = if ltb n 128 && leb n (length bs) then some (take n bs, 1 + n) else none

abbrev short_skip : WireType → Bytes → Option ℕ
short_skip varint_type b = Option.map (λ r. r.1) (short_varint b)
short_skip bytes_type b = Option.map (λ r. r.1) (short_bytes b)
short_skip (other_type n) b = none

abbrev is_ascii : Bytes → Bool
is_ascii [] = true
is_ascii (b ∷ bs) = ltb b 128 && is_ascii bs

abbrev pub short_wire : Protowire
short_wire = record {
  consume_tag = short_tag;
  is_valid = λ num. ltb 0 num;
  consume_varint = short_varint;
  consume_bytes = short_bytes;
  consume_field_value = λ num typ b. short_skip typ b;
  utf8_valid = is_ascii;
}

short_tag-pos :
    (b : Bytes) (num : ℕ) (typ : WireType) (n : ℕ) → short_tag b ≡ some (num, (typ, n)) → 0 < n
short_tag-pos [] num typ n h = ground arith
short_tag-pos (b ∷ bs) num typ n h = ground arith

short_wire-IsProtowire : IsProtowire short_wire
short_wire-IsProtowire = record { tag_pos = short_tag-pos; skip_varint = λ num b. refl }

-- A raw file of length 9 at "r/1", its body in the way, its length written twice.
abbrev pub row : Bytes
row = 8 ∷ 1 ∷ 18 ∷ 2 ∷ 56 ∷ 7 ∷ 56 ∷ 5 ∷ 34 ∷ 3 ∷ (codes "r/1" ++ 56 ∷ 9 ∷ [])

row-cleanup_fields :
    decode_value_message_cleanup_fields short_wire row
    ≡ some (
        some (record {
          value_type = 1;
          value_length = 9;
          raw_file_path = codes "r/1";
          segment_path = [];
        }))
unfolding decode_value_message_cleanup_fields scan iterate read_tag cleanup_field read_varint
    read_path skip_field
row-cleanup_fields = refl

decode_value_message_cleanup_fields-agree_example :
    (Option.map (Option.map as_segment_ref) (decode_value_message_cleanup_fields short_wire row)
      ≡ value_message_segment_ref short_wire row)
    × (Option.map
          (Option.map as_size_and_raw_path)
          (decode_value_message_cleanup_fields short_wire row)
        ≡ value_message_size_and_raw_path short_wire row)
    × (Option.map (Option.map (λ r. r.value_length)) (value_message_segment_ref short_wire row)
        ≡ value_message_value_length short_wire row)
    × (Option.map
          (Option.map (λ r. r.value_length))
          (value_message_size_and_raw_path short_wire row)
        ≡ value_message_value_length short_wire row)
decode_value_message_cleanup_fields-agree_example =
    decode_value_message_cleanup_fields-agree short_wire short_wire-IsProtowire row

extractors_end_example :
    ((r : Option CleanupFields) × (decode_value_message_cleanup_fields short_wire row ≡ some r))
    × ((r : Option SegmentRef) × (value_message_segment_ref short_wire row ≡ some r))
    × ((r : Option SizeAndRawPath) × (value_message_size_and_raw_path short_wire row ≡ some r))
    × ((want : ℕ) → (r : Option ℕ) × (value_message_varint_field short_wire want row ≡ some r))
extractors_end_example = extractors_end short_wire short_wire-IsProtowire row
