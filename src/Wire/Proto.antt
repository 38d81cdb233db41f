-- ===== src/Wire/Proto.antt =====
-- What storage/value_wire.go takes from protowire and unicode/utf8: a parameter, with the documented
-- behaviour of those packages that the file relies on. A negative length, an error, is `none`.
use mathlib.Core.Option
use ocache.Base.{Bool, Bytes, Option, false, some, true, ℕ, ◌<◌, ◌≡◌}

pub data WireType : Type 0 where
  varint_type bytes_type : WireType
  other_type : ℕ → WireType

pub record Protowire : Type 0 where
  -- a field's number and wire type, and the bytes that they take
  pub consume_tag : Bytes → Option (ℕ × (WireType × ℕ))
  pub is_valid : ℕ → Bool
  pub consume_varint : Bytes → Option (ℕ × ℕ)
  pub consume_bytes : Bytes → Option (Bytes × ℕ)
  pub consume_field_value : ℕ → WireType → Bytes → Option ℕ
  pub utf8_valid : Bytes → Bool

-- A tag takes a byte at least, and a varint's value is as long skipped as read.
pub record IsProtowire (pw : Protowire) : Type 0 where
  pub tag_pos :
      (b : Bytes) (num : ℕ) (typ : WireType) (n : ℕ)
      → pw.consume_tag b ≡ some (num, (typ, n))
      → 0 < n
  pub skip_varint :
      (num : ℕ) (b : Bytes)
      → pw.consume_field_value num varint_type b ≡ Option.map (λ r. r.1) (pw.consume_varint b)

abbrev pub is_varint : WireType → Bool
is_varint varint_type = true
is_varint bytes_type = false
is_varint (other_type n) = false

abbrev pub is_bytes : WireType → Bool
is_bytes varint_type = false
is_bytes bytes_type = true
is_bytes (other_type n) = false
