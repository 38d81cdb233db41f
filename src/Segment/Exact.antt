-- ===== src/Segment/Exact.antt =====
-- storage/segment/manager.go: what the recovery of an open segment gives back.
use ocache.Base.{
  Bytes, List, [], ap, arith, drop-append, false, if◌then◌else◌, leb, length, length-append, ltb,
  refl, some, subst, suc, sym, take, true, zero, ℕ, ◌%◌, ◌++◌, ◌+◌, ◌-◌, ◌<◌, ◌^◌, ◌∙◌, ◌∷◌, ◌≡◌,
  ◌≤◌,
}
use ocache.Segment.Format.{
  all_zero, calculate_value_header_size, end_of_file, parse_fixed, read_value_header_at,
  segment_footer_size, value_header_size,
}
use ocache.Segment.Write.{File, Segment, seek, truncate, zeros}
use ocache.Segment.Content.{
  Entry, Holds, encode, encode_entry, length-encode_entry, total_bytes, truncate-Stands,
}
use ocache.Segment.Recover.{
  go_on, judge_next, next, next_header, recovered, scan_entries, scan_file, stops,
  validate_open_segment,
}
use ocache.Segment.Accept.{All, Sound}
use ocache.Segment.Recovered.{scan_entries-encode}

all_zero-take-zeros : (k n : ℕ) → all_zero (take k (zeros n)) ≡ true
all_zero-take-zeros zero n = refl
all_zero-take-zeros (suc k) zero = refl
all_zero-take-zeros (suc k) (suc n) = all_zero-take-zeros k n

-- The space that a segment was given and nobody wrote has no header.
read_value_header_at-zeros :
    (xs : Bytes) (n : ℕ) → read_value_header_at (xs ++ zeros n) (length xs) ≡ end_of_file
unfolding read_value_header_at
read_value_header_at-zeros xs n =
    rw (drop-append (length xs) xs (zeros n) refl, all_zero-take-zeros value_header_size n)
      (elim (ltb (length (take value_header_size (zeros n))) value_header_size)
        as (λ b.
          (if b
            then end_of_file
            else if true
            then end_of_file
            else parse_fixed (take value_header_size (zeros n)))
          ≡ end_of_file) [ true ↦ refl | false ↦ refl ])

next-zeros : (xs : Bytes) (n : ℕ) → next (xs ++ zeros n) (length xs) ≡ stops
unfolding next
next-zeros xs n =
    rw (read_value_header_at-zeros xs n, next_header)
      (elim (leb (length (xs ++ zeros n)) (length xs + segment_footer_size))
        as (λ b. (if b then stops else stops) ≡ stops) [ true ↦ refl | false ↦ refl ])

length-encode : (es : List Entry) → length es ≤ length (encode es)
unfolding calculate_value_header_size
length-encode [] = omega arith
length-encode (e ∷ es) =
    omega
      (arith, length-append (encode_entry e) (encode es), length-encode_entry e, length-encode es)

length-zeros : (n : ℕ) → length (zeros n) ≡ n
length-zeros zero = refl
length-zeros (suc n) = omega (arith, length-zeros n)

-- The counts start at 0.
recovered_eq :
    (es : List Entry) (n : ℕ)
    → recovered (length (encode es)) ((0 + length es) % 2 ^ 32) (0 + total_bytes es)
      ≡ recovered (length (encode es)) (length es % 2 ^ 32) (total_bytes es)
recovered_eq es n =
    let e : 0 + length es ≡ length es = omega arith in
    let b : 0 + total_bytes es ≡ total_bytes es = omega arith in rw (e, b) refl

-- A segment file that holds sound entries and behind them only unwritten space, which may be none, is
-- scanned to exactly the end of those entries, with their number and their bytes, whatever the function
-- that checks values is and however many entries there are below the range of int64.
pub scan_file-encode :
    (crc : Bytes → ℕ) (es : List Entry) (n : ℕ)
    → All (Sound crc n) es
    → length (encode es ++ zeros n) < 2 ^ 63
    → scan_file crc (encode es ++ zeros n)
      ≡ recovered (length (encode es)) (length es % 2 ^ 32) (total_bytes es)
unfolding scan_file scan_entries judge_next
scan_file-encode crc es n ok small =
    let f : Bytes = encode es ++ zeros n in
    let sound = subst (λ k. All (Sound crc k) es) (sym (length-zeros n)) ok in
    let left : ℕ = length f - length es in
    let enough : suc (length f) ≡ length es + suc left =
      omega (arith, length-append (encode es) (zeros n), length-encode es) in
    ap (λ k. scan_entries crc k f 0 0 0) enough
    ∙ scan_entries-encode crc (zeros n) es (suc left) [] 0 0 sound small (omega arith)
    ∙ rw (next-zeros (encode es) n) (recovered_eq es n)

-- An open segment whose file holds entries and behind them only unwritten space, which may be none, is
-- loaded with exactly those entries: the file is cut and its offset set behind them and the counts are
-- theirs, so that the next write goes on where the last one ended. Keys and values are not empty, keys
-- are below 2 ^ 32 bytes and values below 2 ^ 62, the checksum stored with a value is its own or 0, an entry of 20 bytes has a byte behind it, and the file
-- is below 2 ^ 63 bytes.
pub validate_open_segment-Holds :
    (crc : Bytes → ℕ) (es : List Entry) (n : ℕ) (f : File) (seg : Segment)
    → f.content ≡ encode es ++ zeros n
    → All (Sound crc n) es
    → length (encode es ++ zeros n) < 2 ^ 63
    → (loaded : Segment) × (validate_open_segment crc f seg ≡ some loaded) × Holds es loaded
unfolding validate_open_segment truncate
validate_open_segment-Holds crc es n f seg content ok small =
    let size : ℕ = length (encode es) in
    (
      record seg {
        size = size;
        file = some (seek size (truncate size f));
        num_entries = length es % 2 ^ 32;
        data_bytes = total_bytes es;
      },
      ap (λ c. go_on (scan_file crc c) f seg) content
          ∙ ap (λ r. go_on r f seg) (scan_file-encode crc es n ok small),
      record {
        open_file = seek size (truncate size f);
        is_open = refl;
        stands = truncate-Stands (encode es) (zeros n) f content;
        sized = refl;
        counts = refl;
        weighs = refl;
      },
    )
