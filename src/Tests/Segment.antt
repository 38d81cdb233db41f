-- ===== src/Tests/Segment.antt =====
-- Segments at concrete inputs.
use ocache.Base.{
  Bytes, [], arith, codes, false, inr, length, length-append, refl, some, true, ℕ, ◌++◌, ◌+◌, ◌-◌,
  ◌^◌, ◌∷◌, ◌≡◌,
}
use ocache.Base.Int.{pos}
use ocache.Merge.Row.{ValueMessage, raw_file, zero_message}
use ocache.Segment.Format.{
  build_segment_footer_with_version, build_value_header, calculate_value_header_size,
  current_value_header_version, get_be, header, parse_fixed, parse_segment_footer, put_be,
  read_value_header_at, value_header_size,
}
use ocache.Segment.RoundTrip.{
  parse_segment_footer-build_segment_footer_with_version, read_value_header_at-build_value_header,
}
use ocache.Segment.Write.{
  File, Segment, WriteIo, new_segment, new_segment_with_reservation, refused, roll_back, truncate,
  write_entry, write_open, write_payload, write_to, wrong_length, zeros,
}
use ocache.Segment.Content.{Entry, Holds, encode, encode_entry, length-encode_entry}
use ocache.Segment.Kept.{Left, entry_of, write_entry-Left}
use ocache.Segment.Recover.{
  judge, judge_next, load_failed, next, next_header, recovered, scan_entries, scan_file,
  validate_open_segment, with_key,
}
use ocache.Segment.Exact.{validate_open_segment-Holds}

-- A header in the middle of a file.
middle_header :
    read_value_header_at
      (codes "abc"
        ++ (build_value_header (codes "key") (pos 5) 77 current_value_header_version
            ++ codes "hello"))
      (length (codes "abc"))
    ≡ header (record {
      value_len = 5;
      header_size = value_header_size + 3;
      key_len = 3;
      version = current_value_header_version;
      checksum = 77;
    })
middle_header =
    read_value_header_at-build_value_header (codes "abc") (codes "key") (codes "hello") 5 77
      (omega arith) (omega arith) (omega arith) (omega arith) (omega arith)

footer_of_12 :
    parse_segment_footer (build_segment_footer_with_version (pos 1) 12 (pos 3456))
    ≡ some (record { footer_version = 1; entries = 12; data_bytes = pos 3456 })
footer_of_12 =
    parse_segment_footer-build_segment_footer_with_version 1 12 3456 (omega arith) (omega arith)
      (omega arith)

abbrev fresh : Segment
fresh = new_segment_with_reservation (codes "s.seg") 64 (codes "compactor")

-- The payload ends before the length that the row announces.
abbrev cut_short : WriteIo
cut_short = record {
  header_written = 21;
  header_failed = false;
  copied = codes "hel";
  copy_failed = false;
  truncates = true;
  seeks = true;
}

abbrev row : ValueMessage
row = record zero_message { value_type = raw_file; value_length = pos 5; checksum = 7 }

empty-Holds : Holds [] fresh
unfolding truncate
empty-Holds = record {
  open_file = truncate 64 (record { content = []; offset = 0 });
  is_open = refl;
  stands = record { rest = zeros 64; starts = refl; behind = refl };
  sized = refl;
  counts = omega arith;
  weighs = refl;
}

write_entry-Left_example :
    Left []
      (entry_of cut_short (codes "key") row)
      (write_entry cut_short (codes "key") row fresh).0
      (write_entry cut_short (codes "key") row fresh).1
write_entry-Left_example =
    write_entry-Left [] fresh cut_short (codes "key") row empty-Holds refl refl

cut_short_refused : (write_entry cut_short (codes "key") row fresh).0 ≡ refused wrong_length
unfolding write_entry write_to write_open write_payload roll_back build_value_header put_be
cut_short_refused = refl

abbrev crc : Bytes → ℕ
crc s = 7

abbrev whole : Entry
whole = record { key = codes "key"; value = codes "hello"; checksum = 7 }

abbrev crashed : File
crashed = record { content = encode (whole ∷ []) ++ zeros 40; offset = 0 }

validate_open_segment-Holds_example :
    (loaded : Segment) × (validate_open_segment crc crashed (new_segment (codes "s.seg") 0 0 0 64)
      ≡ some loaded)
    × Holds (whole ∷ []) loaded
unfolding calculate_value_header_size
validate_open_segment-Holds_example =
    validate_open_segment-Holds crc (whole ∷ []) 40 crashed (new_segment (codes "s.seg") 0 0 0 64)
      refl
      (
        record {
          some_key = omega arith;
          short_key = omega arith;
          some_value = omega arith;
          short_value = omega arith;
          short_checksum = omega arith;
          checked = inr refl;
          not_footer = omega (arith, length-encode_entry whole);
        },
        tt,
      )
      (omega (
        arith,
        length-append (encode (whole ∷ [])) (zeros 40),
        length-append (encode_entry whole) [],
        length-encode_entry whole,
      ))

abbrev tiny : Entry
tiny = record { key = codes "k"; value = codes "v"; checksum = 7 }

-- An entry as long as a footer at the very end of an open file is cut off.
tiny_lost : scan_file crc (encode (tiny ∷ [])) ≡ recovered 0 0 0
unfolding scan_file scan_entries next judge_next judge build_value_header put_be
    read_value_header_at parse_fixed next_header with_key get_be
tiny_lost = refl

-- A header with no checksum whose length is near the end of int64 makes the load fail.
abbrev huge : Bytes
huge = build_value_header (codes "k") (pos (2 ^ 63 - 1)) 0 1 ++ zeros 40

huge_fails : scan_file crc huge ≡ load_failed
unfolding scan_file scan_entries next judge_next judge build_value_header put_be
    read_value_header_at parse_fixed next_header with_key get_be
huge_fails = refl
