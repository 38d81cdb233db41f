-- ===== src/Segment/Content.antt =====
-- The bytes of a segment (storage/segment/segment.go) as the list of its entries.
use mathlib.Core.List.{append_assoc, append-nil}
use ocache.Base.{
  Bytes, List, [], ap, arith, drop, length, length-append, refl, some, sym, take, take-append, ℕ,
  ◌%◌, ◌++◌, ◌+◌, ◌-◌, ◌^◌, ◌∙◌, ◌∷◌, ◌≡◌,
}
use ocache.Base.Int.{pos, ℤ}
use ocache.Segment.Format.{
  build_value_header, calculate_value_header_size, current_value_header_version, length-put_be,
  of_int64, put_be,
}
use ocache.Segment.Write.{File, Segment, seek, truncate, write_file, zeros}

pub record Entry : Type 0 where
  pub key : Bytes
  pub value : Bytes
  pub checksum : ℕ

abbrev pub encode_entry : Entry → Bytes
encode_entry e =
    build_value_header e.key (pos (length e.value)) e.checksum current_value_header_version
    ++ e.value

abbrev pub encode : List Entry → Bytes
encode [] = []
encode (e ∷ es) = encode_entry e ++ encode es

abbrev pub total_bytes : List Entry → ℕ
total_bytes [] = 0
total_bytes (e ∷ es) = length e.value + total_bytes es

-- The file starts with `xs` and its offset is behind them.
pub record Stands (xs : Bytes) (f : File) : Type 0 where
  pub rest : Bytes
  pub starts : f.content ≡ xs ++ rest
  pub behind : f.offset ≡ length xs

-- The open file starts with the entries and stands behind them, and the counts are theirs.
pub record Holds (es : List Entry) (seg : Segment) : Type 0 where
  pub open_file : File
  pub is_open : seg.file ≡ some open_file
  pub stands : Stands (encode es) open_file
  pub sized : seg.size ≡ length (encode es)
  pub counts : seg.num_entries ≡ length es % 2 ^ 32
  pub weighs : seg.data_bytes ≡ total_bytes es

pub write_file-Stands : (xs s : Bytes) (f : File) → Stands xs f → Stands (xs ++ s) (write_file s f)
unfolding write_file
write_file-Stands xs s f st = record {
  rest = drop (f.offset + length s) f.content;
  starts =
      ap (◌++ (s ++ drop (f.offset + length s) f.content)) (
        ap (take f.offset)
          (ap (◌++ zeros (f.offset - length f.content)) st.starts ∙ append_assoc xs st.rest _)
        ∙ take-append f.offset xs _ (sym st.behind))
      ∙ sym (append_assoc xs s _);
  behind = omega (arith, st.behind, length-append xs s);
}

-- The truncation at the old size and the seek there undo whatever was written behind it.
pub truncate-Stands :
    (xs rest : Bytes) (f : File)
    → f.content ≡ xs ++ rest
    → Stands xs (seek (length xs) (truncate (length xs) f))
unfolding truncate
truncate-Stands xs rest f content = record {
  rest = [];
  starts =
      ap (take (length xs))
        (ap (◌++ zeros (length xs - length f.content)) content ∙ append_assoc xs rest _)
      ∙ take-append (length xs) xs _ refl
      ∙ sym (append-nil xs);
  behind = refl;
}

pub encode-append : (es fs : List Entry) → encode (es ++ fs) ≡ encode es ++ encode fs
encode-append [] fs = refl
encode-append (e ∷ es) fs =
    ap (◌++◌ (encode_entry e)) (encode-append es fs)
    ∙ sym (append_assoc (encode_entry e) (encode es) (encode fs))

pub total_bytes-append :
    (es fs : List Entry) → total_bytes (es ++ fs) ≡ total_bytes es + total_bytes fs
total_bytes-append [] fs = omega arith
total_bytes-append (e ∷ es) fs = omega (arith, total_bytes-append es fs)

pub take_all : (xs : Bytes) → take (length xs) xs ≡ xs
take_all [] = refl
take_all (x ∷ xs) = ap (◌∷◌ x) (take_all xs)

length-build_value_header :
    (key : Bytes) (n : ℤ) (checksum version : ℕ)
    → length (build_value_header key n checksum version) ≡ calculate_value_header_size key
unfolding build_value_header calculate_value_header_size
length-build_value_header key n checksum version =
    length-append (put_be 8 (of_int64 n)) _
    ∙ omega (
      arith,
      length-append (put_be 4 (length key)) (put_be 4 checksum ++ (put_be 2 version ++ key)),
      length-append (put_be 4 checksum) (put_be 2 version ++ key),
      length-append (put_be 2 version) key,
      length-put_be 8 (of_int64 n),
      length-put_be 4 (length key),
      length-put_be 4 checksum,
      length-put_be 2 version,
    )

pub length-encode_entry :
    (e : Entry) → length (encode_entry e) ≡ calculate_value_header_size e.key + length e.value
length-encode_entry e =
    length-append (build_value_header e.key _ _ _) e.value
    ∙ ap (◌+ length e.value) (length-build_value_header e.key _ _ _)
