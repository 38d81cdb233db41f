-- ===== src/Wire/Extract.antt =====
-- storage/value_wire.go: the extractors. Each is a loop over the fields of the text, and a function here
-- is one iteration of it: `none` is the return with ok = false. An int64 or uint64 is its bit pattern.
use ocache.Base.{
  Bool, Bytes, Option, [], drop, if◌then◌else◌, length, none, some, suc, zero, ℕ, ◌%◌, ◌&&◌, ◌==◌,
  ◌^◌, ◌||◌, ◌∷◌,
}
use ocache.Wire.Proto.{Protowire, WireType, is_bytes, is_varint}

abbrev pub value_type_field : ℕ
value_type_field = 1

abbrev pub value_expiry_field : ℕ
value_expiry_field = 3

abbrev pub value_raw_path_field : ℕ
value_raw_path_field = 4

abbrev pub value_seg_path_field : ℕ
value_seg_path_field = 5

abbrev pub value_length_field : ℕ
value_length_field = 7

abbrev pub value_version_field : ℕ
value_version_field = 9

-- The field's tag, and the text behind it.
unfoldable pub read_tag : Protowire → Bytes → Option (ℕ × (WireType × Bytes))
read_tag pw buf = elim (pw.consume_tag buf) [
  | none ↦ none
  | some (num, (typ, n)) ↦ if pw.is_valid num then some (num, (typ, drop n buf)) else none
]

unfoldable pub read_varint {ℓ} : {A : Type ℓ} → Protowire → (ℕ → A) → Bytes → Option (A × Bytes)
read_varint pw put buf = elim (pw.consume_varint buf) [
  | none ↦ none
  | some (v, n) ↦ some (put v, drop n buf)
]

unfoldable pub read_path {ℓ} : {A : Type ℓ} → Protowire → (Bytes → A) → Bytes → Option (A × Bytes)
read_path pw put buf = elim (pw.consume_bytes buf) [
  | none ↦ none
  | some (v, n) ↦ if pw.utf8_valid v then some (put v, drop n buf) else none
]

unfoldable pub skip_field {ℓ} :
    {A : Type ℓ} → Protowire → ℕ → WireType → A → Bytes → Option (A × Bytes)
skip_field pw num typ acc buf = elim (pw.consume_field_value num typ buf) [
  | none ↦ none
  | some n ↦ some (acc, drop n buf)
]

abbrev pub is_path : ℕ → WireType → Bool
is_path num typ = ((num == value_raw_path_field) || (num == value_seg_path_field)) && is_bytes typ

-- What an iteration does with a field, and the iteration: its tag first.
abbrev pub Field {ℓ} : Type ℓ → Type ℓ
Field A = A → ℕ → WireType → Bytes → Option (A × Bytes)

unfoldable pub iterate {ℓ} : {A : Type ℓ} → Protowire → Field A → A → Bytes → Option (A × Bytes)
iterate pw field acc buf = elim (read_tag pw buf) [
  | none ↦ none
  | some (num, (typ, rest)) ↦ field acc num typ rest
]

-- The loop: the outer `none` is a loop that is not over after `fuel` iterations.
unfoldable pub scan {ℓ} :
    {A : Type ℓ} → ℕ → (A → Bytes → Option (A × Bytes)) → A → Bytes → Option (Option A)
scan fuel body acc [] = some (some acc)
scan zero body acc (b ∷ bs) = none
scan (suc fuel) body acc (b ∷ bs) = elim (body acc (b ∷ bs)) [
  | none ↦ some none
  | some (acc', rest) ↦ scan fuel body acc' rest
]

unfoldable pub varint_field : Protowire → ℕ → Field ℕ
varint_field pw want val num typ rest =
    if (num == want) && is_varint typ
    then read_varint pw (λ v. v) rest
    else if is_path num typ
    then read_path pw (λ _. val) rest
    else skip_field pw num typ val rest

unfoldable pub value_message_varint_field : Protowire → ℕ → Bytes → Option (Option ℕ)
unfolding scan
value_message_varint_field pw want buf = scan (length buf) (iterate pw (varint_field pw want)) 0 buf

pub record SegmentRef : Type 0 where
  pub segment_path : Bytes
  pub value_length : ℕ

unfoldable pub segment_ref_field : Protowire → Field SegmentRef
segment_ref_field pw acc num typ rest =
    if (num == value_length_field) && is_varint typ
    then read_varint pw (λ v. record acc { value_length = v }) rest
    else if is_path num typ
    then read_path pw
        (λ p. if num == value_seg_path_field then record acc { segment_path = p } else acc) rest
    else skip_field pw num typ acc rest

unfoldable pub value_message_segment_ref : Protowire → Bytes → Option (Option SegmentRef)
unfolding scan
value_message_segment_ref pw buf =
    scan (length buf) (iterate pw (segment_ref_field pw))
      (record { segment_path = []; value_length = 0 }) buf

pub record SizeAndRawPath : Type 0 where
  pub value_length : ℕ
  pub raw_path : Bytes

unfoldable pub size_and_raw_path_field : Protowire → Field SizeAndRawPath
size_and_raw_path_field pw acc num typ rest =
    if (num == value_length_field) && is_varint typ
    then read_varint pw (λ v. record acc { value_length = v }) rest
    else if is_path num typ
    then read_path pw
        (λ p. if num == value_raw_path_field then record acc { raw_path = p } else acc) rest
    else skip_field pw num typ acc rest

unfoldable pub value_message_size_and_raw_path : Protowire → Bytes → Option (Option SizeAndRawPath)
unfolding scan
value_message_size_and_raw_path pw buf =
    scan (length buf) (iterate pw (size_and_raw_path_field pw))
      (record { value_length = 0; raw_path = [] }) buf

unfoldable pub value_message_value_length : Protowire → Bytes → Option (Option ℕ)
unfolding value_message_varint_field
value_message_value_length pw buf = value_message_varint_field pw value_length_field buf

unfoldable pub value_message_version : Protowire → Bytes → Option (Option ℕ)
unfolding value_message_varint_field
value_message_version pw buf = value_message_varint_field pw value_version_field buf

unfoldable pub value_message_expiry : Protowire → Bytes → Option (Option ℕ)
unfolding value_message_varint_field
value_message_expiry pw buf = value_message_varint_field pw value_expiry_field buf

-- The type is an int32, the low half of the number on the wire.
pub record CleanupFields : Type 0 where
  pub value_type : ℕ
  pub value_length : ℕ
  pub raw_file_path : Bytes
  pub segment_path : Bytes

unfoldable pub cleanup_field : Protowire → Field CleanupFields
cleanup_field pw acc num typ rest =
    if (num == value_type_field) && is_varint typ
    then read_varint pw (λ v. record acc { value_type = v % 2 ^ 32 }) rest
    else if (num == value_length_field) && is_varint typ
    then read_varint pw (λ v. record acc { value_length = v }) rest
    else if (num == value_raw_path_field) && is_bytes typ
    then read_path pw (λ p. record acc { raw_file_path = p }) rest
    else if (num == value_seg_path_field) && is_bytes typ
    then read_path pw (λ p. record acc { segment_path = p }) rest
    else skip_field pw num typ acc rest

abbrev pub no_fields : CleanupFields
no_fields = record { value_type = 0; value_length = 0; raw_file_path = []; segment_path = [] }

unfoldable pub decode_value_message_cleanup_fields :
    Protowire → Bytes → Option (Option CleanupFields)
unfolding scan
decode_value_message_cleanup_fields pw buf =
    scan (length buf) (iterate pw (cleanup_field pw)) no_fields buf
