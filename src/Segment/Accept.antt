-- ===== src/Segment/Accept.antt =====
-- storage/segment: an entry that was written is read back and accepted by the scan.
use mathlib.Core.List.{append_assoc}
use ocache.Base.{
  Bytes, List, [], ap, arith, false, inl, inr, is_empty, leb, length, length-append, ltb, not, refl,
  ℕ, ◌&&◌, ◌++◌, ◌+◌, ◌<◌, ◌==◌, ◌^◌, ◌∙◌, ◌∷◌, ◌≡◌, ◌≤◌, ◌⊎◌,
}
use ocache.Base.Int.{pos}
use ocache.Keys.Text.{int64_limit}
use ocache.Segment.Format.{
  ValueHeader, build_value_header, calculate_value_header_size, current_value_header_version, field,
  header, read_value_header_at, segment_footer_size, value_header_size,
}
use ocache.Segment.Fields.{
  build_value_header-fixed_part, field-behind, field-front, field-skip, fixed_part,
  length-fixed_part,
}
use ocache.Segment.RoundTrip.{read_value_header_at-build_value_header}
use ocache.Segment.Content.{Entry, encode_entry, length-encode_entry}
use ocache.Segment.Recover.{
  EntryInfo, Scanned, entry, entry_total, judge, judge_next, next, next_header, with_key,
}

-- What a writer stores: a key and a value that are not empty, and the value's checksum or 0. An entry of
-- a one-byte key and a one-byte value, which is as long as a footer, has bytes behind it.
pub record Sound (crc : Bytes → ℕ) (behind : ℕ) (e : Entry) : Type 0 where
  pub some_key : 0 < length e.key
  pub short_key : length e.key < 2 ^ 32
  pub some_value : 0 < length e.value
  pub short_value : length e.value < 2 ^ 62
  pub short_checksum : e.checksum < 2 ^ 32
  pub checked : (e.checksum ≡ 0) ⊎ (crc e.value ≡ e.checksum)
  pub not_footer : segment_footer_size < length (encode_entry e) + behind

abbrev pub All : {A : Type 0} (P : A → Type 0) → List A → Type 0
All P [] = Unit
All P (x ∷ xs) = P x × All P xs

pub Sound-behind : (crc : Bytes → ℕ) (e : Entry) (m n : ℕ) → m ≤ n → Sound crc m e → Sound crc n e
Sound-behind crc e m n h ok = record {
  some_key = ok.some_key;
  short_key = ok.short_key;
  some_value = ok.some_value;
  short_value = ok.short_value;
  short_checksum = ok.short_checksum;
  checked = ok.checked;
  not_footer = omega (arith, ok.not_footer);
}

abbrev pub head_of : Entry → ValueHeader
head_of e = record {
  value_len = length e.value;
  header_size = value_header_size + length e.key;
  key_len = length e.key;
  version = current_value_header_version;
  checksum = e.checksum;
}

is_empty-false : (xs : Bytes) → 0 < length xs → is_empty xs ≡ false
is_empty-false [] h = absurd (omega arith)
is_empty-false (x ∷ xs) h = refl

module _ (crc : Bytes → ℕ) (before rest : Bytes) (e : Entry) where
  abbrev pub file : Bytes
  file = before ++ (encode_entry e ++ rest)

  abbrev fixed : Bytes
  fixed = fixed_part (length e.value) (length e.key) e.checksum current_value_header_version

  -- The parts of the entry at hand.
  laid_out : encode_entry e ++ rest ≡ fixed ++ (e.key ++ (e.value ++ rest))
  laid_out =
      append_assoc
        (build_value_header e.key (pos (length e.value)) e.checksum current_value_header_version)
        e.value rest
      ∙ ap (◌++ (e.value ++ rest)) (
          build_value_header-fixed_part e.key (length e.value) e.checksum
            current_value_header_version)
      ∙ append_assoc fixed e.key (e.value ++ rest)

  key_read : field (length before + value_header_size) (length e.key) file ≡ e.key
  key_read =
      ap (λ s. field (length before + value_header_size) (length e.key) (before ++ s)) laid_out
      ∙ field-skip (length before) value_header_size (length e.key) before _ refl
      ∙ field-behind value_header_size (length e.key) fixed _ (
          length-fixed_part (length e.value) (length e.key) e.checksum current_value_header_version)
      ∙ field-front (length e.key) e.key (e.value ++ rest) refl

  value_read :
      field (length before + (value_header_size + length e.key)) (length e.value) file ≡ e.value
  value_read =
      ap
        (λ s.
          field (length before + (value_header_size + length e.key)) (length e.value) (before ++ s))
        laid_out
      ∙ field-skip (length before) (value_header_size + length e.key) (length e.value) before _ refl
      ∙ field-skip value_header_size (length e.key) (length e.value) fixed _ (
          length-fixed_part (length e.value) (length e.key) e.checksum current_value_header_version)
      ∙ field-behind (length e.key) (length e.value) e.key _ refl
      ∙ field-front (length e.value) e.value rest refl

  file_length :
      length file
      ≡ length before + (value_header_size + length e.key + length e.value + length rest)
  unfolding calculate_value_header_size
  file_length =
      length-append before _
      ∙ omega (arith, length-append (encode_entry e) rest, length-encode_entry e)

  header_read :
      Sound crc (length rest) e → read_value_header_at file (length before) ≡ header (head_of e)
  header_read ok =
      ap (λ s. read_value_header_at (before ++ s) (length before))
        (append_assoc
          (build_value_header e.key (pos (length e.value)) e.checksum current_value_header_version)
          e.value rest)
      ∙ read_value_header_at-build_value_header before e.key (e.value ++ rest) (length e.value)
          e.checksum ok.some_key ok.short_key ok.some_value (omega (arith, ok.short_value))
          ok.short_checksum

  abbrev pub info : EntryInfo
  info = record { entry_key = e.key; entry_offset = length before; head = head_of e }

  pub next-entry : Sound crc (length rest) e → next file (length before) ≡ entry info
  unfolding next with_key calculate_value_header_size
  next-entry ok =
      let more : leb (length file) (length before + segment_footer_size) ≡ false =
        ground (arith, file_length, ok.not_footer, length-encode_entry e) in
      let whole : ltb (length e.key) (length e.key) ≡ false = ground arith in
      rw (more, header_read ok, next_header, key_read, whole) refl

  -- The scan goes on behind a sound entry.
  pub judge_next-entry :
      (entries data_bytes : ℕ) (onward : Scanned)
      → Sound crc (length rest) e
      → length file < int64_limit
      → judge_next crc file (length before) entries data_bytes (entry info) onward ≡ onward
  unfolding judge_next judge
  judge_next-entry entries data_bytes onward ok small =
      let room : leb int64_limit (length before + entry_total (head_of e)) ≡ false =
        ground (arith, file_length) in
      let inside : ltb (length file) (length before + entry_total (head_of e)) ≡ false =
        ground (arith, file_length) in
      let value_there : (length e.value == 0) ≡ false = ground (arith, ok.some_value) in
      let key_there : is_empty e.key ≡ false = is_empty-false e.key ok.some_key in
      let agrees : (not (e.checksum == 0)
            && not (
                crc
                  (field (length before + (value_header_size + length e.key)) (length e.value) file)
                == e.checksum))
          ≡ false =
        rw value_read (elim ok.checked [
          | inl none_stored ↦ ground (arith, none_stored)
          | inr same ↦ ground (arith, same)
        ]) in
      rw (value_there, key_there, room, inside, agrees) refl
