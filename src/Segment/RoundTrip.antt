-- ===== src/Segment/RoundTrip.antt =====
-- storage/segment/builder.go: what was built is read back.
use mathlib.Core.List.{append_assoc, append-nil}
use ocache.Base.{
  Bytes, [], ap, arith, bytes_eq, drop-append, length, length-append, refl, some, sym, take,
  take-append, ℕ, ◌%◌, ◌++◌, ◌+◌, ◌/◌, ◌<◌, ◌^◌, ◌∙◌, ◌∷◌, ◌≡◌, ◌≤◌,
}
use ocache.Base.Int.{pos}
use ocache.Keys.Text.{int64_limit}
use ocache.Segment.Format.{
  build_segment_footer_with_version, build_value_header, current_value_header_version, field,
  get_be, get_be-put_be, header, length-put_be, of_int64, parse_digits, parse_fixed,
  parse_segment_footer, put_be, read_value_header_at, segment_footer_magic_prefix, to_int64,
  value_header_size, version_digits,
}
use ocache.Segment.Fields.{
  build_value_header-fixed_part, checksum_field, field-behind, field-front, fixed_part, key_field,
  length-fixed_part, not_zero, of_int64-to_int64, value_field, version_field,
}

module _ (value_len key_len checksum : ℕ) (small_value : value_len < int64_limit)
    (small_key : key_len < 256 ^ 4) (small_checksum : checksum < 256 ^ 4) where
  abbrev version : ℕ
  version = current_value_header_version

  parse_fixed-fixed_part :
      0 < value_len
      → 0 < key_len
      → parse_fixed (fixed_part value_len key_len checksum version)
        ≡ header (record {
          value_len = value_len;
          header_size = value_header_size + key_len;
          key_len = key_len;
          version = version;
          checksum = checksum;
        })
  unfolding parse_fixed
  parse_fixed-fixed_part some_value some_key =
      rw
        (
          value_field value_len key_len checksum version small_value small_key small_checksum
              (omega arith),
          key_field value_len key_len checksum version small_value small_key small_checksum
              (omega arith),
          version_field value_len key_len checksum version small_value small_key small_checksum
              (omega arith),
          checksum_field value_len key_len checksum version small_value small_key small_checksum
              (omega arith),
        )
        (ground arith)

-- A header that was built, wherever it stands in a file, is read back field by field, where the key and
-- the value are not empty and the lengths and the checksum fit the widths of their fields.
pub read_value_header_at-build_value_header :
    (before key rest : Bytes) (value_len checksum : ℕ)
    → 0 < length key
    → length key < 2 ^ 32
    → 0 < value_len
    → value_len < 2 ^ 63
    → checksum < 2 ^ 32
    → read_value_header_at
        (before
          ++ (build_value_header key (pos value_len) checksum current_value_header_version ++ rest))
        (length before)
      ≡ header (record {
        value_len = value_len;
        header_size = value_header_size + length key;
        key_len = length key;
        version = current_value_header_version;
        checksum = checksum;
      })
unfolding read_value_header_at
read_value_header_at-build_value_header before key rest value_len checksum hk bk hv bv bc =
    let fixed : Bytes = fixed_part value_len (length key) checksum current_value_header_version in
    let reading : field (length before) value_header_size (
          before
          ++ (build_value_header key (pos value_len) checksum current_value_header_version ++ rest))
        ≡ fixed =
      ap (take 18) (
        drop-append (length before) before _ refl
        ∙ ap (◌++ rest)
            (build_value_header-fixed_part key value_len checksum current_value_header_version)
        ∙ append_assoc fixed key rest)
      ∙ take-append 18 fixed (key ++ rest)
          (length-fixed_part value_len (length key) checksum current_value_header_version) in
    rw
      (
        reading,
        length-fixed_part value_len (length key) checksum current_value_header_version,
        not_zero value_len (length key) checksum current_value_header_version (omega arith)
            (omega arith) (omega arith) (omega arith) hk,
      )
      (parse_fixed-fixed_part value_len (length key) checksum (omega arith) (omega arith)
        (omega arith) hv hk)

module _ (v entries data_bytes : ℕ) (digits : v ≤ 99) where
  abbrev numbers : Bytes
  numbers = put_be 4 entries ++ put_be 8 (of_int64 (pos data_bytes))

  abbrev two_digits : Bytes
  two_digits = (b'0' + v / 10 % 10) ∷ (b'0' + v % 10) ∷ []

  footer_bytes :
      build_segment_footer_with_version (pos v) entries (pos data_bytes)
      ≡ segment_footer_magic_prefix ++ (two_digits ++ numbers)
  unfolding build_segment_footer_with_version version_digits
  footer_bytes = ground arith

  parse_digits-two_digits : parse_digits two_digits ≡ some v
  unfolding parse_digits
  parse_digits-two_digits = ground arith

  length-numbers : length numbers ≡ 12
  length-numbers =
      length-append (put_be 4 entries) _
      ∙ omega (arith, length-put_be 4 entries, length-put_be 8 (of_int64 (pos data_bytes)))

module _ (v entries data_bytes : ℕ) (digits : v ≤ 99) where
  abbrev footer : Bytes
  footer = build_segment_footer_with_version (pos v) entries (pos data_bytes)

  entries_read : entries < 2 ^ 32 → get_be 0 (field 8 4 footer) ≡ entries
  entries_read be =
      ap (λ f. get_be 0 (field 8 4 f)) (footer_bytes v entries data_bytes digits)
      ∙ ap (get_be 0) (take-append 4 (put_be 4 entries) _ (length-put_be 4 entries))
      ∙ get_be-put_be 4 entries (omega arith)

  data_bytes_read : data_bytes < 2 ^ 63 → to_int64 (get_be 0 (field 12 8 footer)) ≡ pos data_bytes
  data_bytes_read bd =
      let total : Bytes = put_be 8 (of_int64 (pos data_bytes)) in
      let same : data_bytes % 2 ^ 64 ≡ data_bytes = omega arith in
      ap (λ f. to_int64 (get_be 0 (field 12 8 f))) (footer_bytes v entries data_bytes digits)
      ∙ ap (λ s. to_int64 (get_be 0 s))
          (field-behind 4 8 (put_be 4 entries) total (length-put_be 4 entries)
            ∙ ap (field 0 8) (sym (append-nil total))
            ∙ field-front 8 total [] (length-put_be 8 _))
      ∙ ap to_int64 (get_be-put_be 8 (data_bytes % 2 ^ 64) (omega arith) ∙ same)
      ∙ of_int64-to_int64 data_bytes bd

-- A footer that was built is read back, for a version of two digits, a count below 2 ^ 32 and a total
-- that an int64 holds.
pub parse_segment_footer-build_segment_footer_with_version :
    (v entries data_bytes : ℕ)
    → v ≤ 99
    → entries < 2 ^ 32
    → data_bytes < 2 ^ 63
    → parse_segment_footer (build_segment_footer_with_version (pos v) entries (pos data_bytes))
      ≡ some (record { footer_version = v; entries = entries; data_bytes = pos data_bytes })
unfolding parse_segment_footer bytes_eq
parse_segment_footer-build_segment_footer_with_version v entries data_bytes digits be bd =
    let long : length (
          segment_footer_magic_prefix
          ++ (two_digits v entries data_bytes digits ++ numbers v entries data_bytes digits))
        ≡ 20 =
      omega (arith, length-numbers v entries data_bytes digits) in
    rw
      (
        footer_bytes v entries data_bytes digits,
        long,
        parse_digits-two_digits v entries data_bytes digits,
      )
      (λ i. some (record {
        footer_version = v;
        entries = entries_read v entries data_bytes digits be i;
        data_bytes = data_bytes_read v entries data_bytes digits bd i;
      }))
