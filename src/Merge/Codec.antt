-- ===== src/Merge/Codec.antt =====
-- The protobuf encoding of rows and delete-index entries, which google.golang.org/protobuf provides: a
-- parameter, with what its documentation promises as laws.
use ocache.Base.{Bytes, Option, [], some, ℕ, ◌∷◌, ◌≡◌}
use ocache.Merge.Row.{ValueMessage, zero_message}
use ocache.Merge.Operator.{tombstone}

-- storage.proto's DeleteIndexEntry: each int64 is its bit pattern, a number below 2 ^ 64.
pub record DeleteIndexEntry : Type 0 where
  pub deleted_entries : ℕ
  pub deleted_bytes : ℕ

-- operator.go: the bytes of a message whose only field is Expiry = 1.
abbrev pub expired_sentinel : Bytes
expired_sentinel = 0x18 ∷ 0x01 ∷ []

-- An error of Marshal or Unmarshal is `none`.
pub record Codec : Type 0 where
  pub marshal : ValueMessage → Option Bytes
  pub unmarshal : Bytes → Option ValueMessage
  pub marshal_entry : DeleteIndexEntry → Option Bytes
  pub unmarshal_entry : Bytes → Option DeleteIndexEntry

-- What Marshal writes Unmarshal reads back; the empty text is the message with no field set; and the
-- sentinel's bytes are those that the package's init function compares with Marshal.
pub record IsCodec (c : Codec) : Type 0 where
  pub unmarshal_marshal :
      (vm : ValueMessage) (b : Bytes) → c.marshal vm ≡ some b → c.unmarshal b ≡ some vm
  pub unmarshal_nil : c.unmarshal [] ≡ some zero_message
  pub marshal_sentinel : c.marshal (tombstone 0) ≡ some expired_sentinel
  pub unmarshal_marshal_entry :
      (e : DeleteIndexEntry) (b : Bytes) → c.marshal_entry e ≡ some b → c.unmarshal_entry b ≡ some e
  pub unmarshal_entry_nil :
      c.unmarshal_entry [] ≡ some (record { deleted_entries = 0; deleted_bytes = 0 })
