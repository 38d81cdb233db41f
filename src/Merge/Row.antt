-- ===== src/Merge/Row.antt =====
-- storage/proto/storage.proto (ValueMessage), and the reading of a row in storage/merge/operator.go.
use ocache.Base.{
  Bool, Bytes, Option, [], false, if◌then◌else◌, is_empty, leb, none, some, true, ℕ, ◌&&◌, ◌==◌,
  ◌||◌,
}
use ocache.Base.Int.{eqb_ℤ, pos, ℤ}

-- proto3 enums are open: a number outside the list is kept.
pub data ValueType : Type 0 where
  inline raw_file segment : ValueType
  unknown_type : ℕ → ValueType

pub data MetaOp : Type 0 where
  op_none cas_put cas_delete : MetaOp
  unknown_op : ℕ → MetaOp

pub record ValueMessage : Type 0 where
  pub value_type : ValueType
  pub body : Bytes
  pub expiry : ℤ
  pub raw_file_path : Bytes
  pub segment_path : Bytes
  pub segment_offset : ℤ
  pub value_length : ℤ
  pub checksum : ℕ
  pub version : ℕ
  pub op_type : MetaOp
  pub cas_expected_version : ℕ

abbrev pub is_raw_file : ValueType → Bool
is_raw_file raw_file = true
is_raw_file _ = false

abbrev pub is_segment : ValueType → Bool
is_segment segment = true
is_segment _ = false

-- The message with no field set.
abbrev pub zero_message : ValueMessage
zero_message = record {
  value_type = inline;
  body = [];
  expiry = pos 0;
  raw_file_path = [];
  segment_path = [];
  segment_offset = pos 0;
  value_length = pos 0;
  checksum = 0;
  version = 0;
  op_type = op_none;
  cas_expected_version = 0;
}

abbrev pub version_legacy : ℕ
version_legacy = 1

abbrev pub tombstone_expiry : ℤ
tombstone_expiry = pos 1

-- A ref-less tombstone; `none` is the nil pointer.
unfoldable pub is_tombstone : Option ValueMessage → Bool
is_tombstone none = false
is_tombstone (some vm) =
    eqb_ℤ vm.expiry tombstone_expiry && (is_empty vm.raw_file_path && is_empty vm.segment_path)

unfoldable pub effective_row_version : Option ValueMessage → ℕ
effective_row_version none = 0
effective_row_version (some vm) =
    if eqb_ℤ vm.expiry tombstone_expiry
    then vm.version
    else if vm.version == 0
    then version_legacy
    else vm.version

unfoldable pub fence_admits : ValueMessage → ℕ → Bool
fence_admits tombstone expected = (expected == 0) || leb tombstone.version expected
