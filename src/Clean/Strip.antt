-- ===== src/Clean/Strip.antt =====
-- storage/value_wire.go: unmarshalValueMessageSkippingData, by which the cleaner reads a row; and the
-- extractors' answers with a loop that is over.
use ocache.Base.{
  Bytes, Option, [], drop, if◌then◌else◌, length, none, not, some, take, ℕ, ◌++◌, ◌+◌, ◌==◌,
}
use ocache.Merge.Row.{ValueMessage}
use ocache.Merge.Codec.{Codec}
use ocache.Base.Int.{ℤ}
use ocache.Segment.Format.{to_int64}
use ocache.Wire.Proto.{Protowire}
use ocache.Wire.Extract.{scan, value_message_expiry, value_message_version}

abbrev pub value_data_field : ℕ
value_data_field = 2

-- One iteration: the bytes kept so far, and the rest of the text.
unfoldable pub strip_field : Protowire → Bytes → Bytes → Option (Bytes × Bytes)
strip_field pw stripped buf = elim (pw.consume_tag buf) [
  | none ↦ none
  | some (num, (typ, tn)) ↦
      if not (pw.is_valid num) then none else elim (pw.consume_field_value num typ (drop tn buf)) [
        | none ↦ none
        | some vn ↦
            let n : ℕ = tn + vn in
            some (if num == value_data_field then stripped else stripped ++ take n buf, drop n buf)
      ]
]

abbrev pub ended {ℓ} : {A : Type ℓ} → Option (Option A) → Option A
ended none = none
ended (some o) = o

unfoldable pub unmarshal_value_message_skipping_data :
    Protowire → Codec → Bytes → Option ValueMessage
unfolding strip_field scan
unmarshal_value_message_skipping_data pw c buf =
    elim (ended (scan (length buf) (strip_field pw) [] buf)) [
      | none ↦ none
      | some stripped ↦ c.unmarshal stripped
    ]

abbrev pub as_int64 : Option ℕ → Option ℤ
as_int64 none = none
as_int64 (some n) = some (to_int64 n)

abbrev pub or_zero : Option ℕ → ℕ
or_zero none = 0
or_zero (some n) = n

-- What a row says of its expiry, and its version; where the version cannot be read it is 0.
unfoldable pub expiry_of_row : Protowire → Bytes → Option ℤ
expiry_of_row pw b = as_int64 (ended (value_message_expiry pw b))

unfoldable pub version_of_row : Protowire → Bytes → ℕ
version_of_row pw b = or_zero (ended (value_message_version pw b))
