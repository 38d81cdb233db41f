-- ===== src/Tests/Clean.antt =====
-- The cleaner at concrete inputs, over the wire format of one-byte tags, numbers and lengths.
use ocache.Base.{
  Bytes, [], arith, bytes_eq, codes, false, inl, inr, none, refl, some, true, ◌∷◌, ◌≡◌,
}
use ocache.Base.Int.{pos}
use ocache.Base.Assoc.{lookup, remove}
use ocache.Cas.Io.{fifo}
use ocache.Keys.Format.{make_fifo_backref_key}
use ocache.Merge.SampleCodec.{sample_codec}
use ocache.Wire.Extract.{
  iterate, read_path, read_tag, read_varint, scan, skip_field, value_message_expiry,
  value_message_varint_field, varint_field,
}
use ocache.Tests.Wire.{row, short_wire}
use ocache.Store.State.{Store, stage_eviction_index_deletes}
use ocache.Clean.Strip.{expiry_of_row, unmarshal_value_message_skipping_data}
use ocache.Clean.Expire.{FlushIo, SnapshotRow, cleanup_expired_keys, is_fence}
use ocache.Clean.Spared.{LiveAt, cleanup_expired_keys-LiveAt}
use ocache.Clean.Expired.{cleanup_expired_keys-gone}

abbrev store : Store
store = record {
  rows = (codes "k", row) ∷ (codes "old", 24 ∷ 5 ∷ []) ∷ [];
  index = [];
  credits = [];
  queued = [];
  total_size = pos 9;
}

abbrev calm : FlushIo
calm = record {
  others = λ s. s;
  before_read = λ k s. s;
  before_write = λ s. s;
  row_reads = λ k. true;
  index_reads = true;
  written = true;
}

-- A row that the snapshot shows with the expiry 5.
abbrev past_row : Bytes → SnapshotRow
past_row key = record {
  closed = false;
  others = λ s. s;
  key = key;
  value = 24 ∷ 5 ∷ [];
  index_reads = true;
  clock = 100;
  closed_before_write = false;
  flush_io = calm;
}

past : expiry_of_row short_wire (24 ∷ 5 ∷ []) ≡ some (pos 5)
unfolding expiry_of_row value_message_expiry value_message_varint_field scan iterate read_tag
    varint_field read_varint
past = refl

fresh : expiry_of_row short_wire row ≡ some (pos 0)
unfolding expiry_of_row value_message_expiry value_message_varint_field scan iterate read_tag
    varint_field read_varint read_path skip_field
fresh = refl

-- The key was rewritten since the snapshot.
cleanup_expired_keys-LiveAt_example :
    LiveAt short_wire sample_codec fifo
      (pos 1000)
      10
      200
      (codes "k")
      (cleanup_expired_keys short_wire sample_codec fifo
        (pos 1000)
        10
        (past_row (codes "k") ∷ [])
        calm
        store).1
unfolding lookup bytes_eq
cleanup_expired_keys-LiveAt_example =
    cleanup_expired_keys-LiveAt short_wire sample_codec fifo (pos 1000) 10 200 (codes "k")
      (past_row (codes "k") ∷ []) calm store
      ((omega arith, λ s h. h, (λ s h. h, λ k s h. h, λ s h. h), inr (pos 5, past)), tt)
      (λ s h. h, λ k s h. h, λ s h. h) (row, refl, (pos 0, fresh, inl refl))

cleanup_expired_keys-gone_example :
    lookup
      (codes "old")
      (cleanup_expired_keys short_wire sample_codec fifo
        (pos 1000)
        10
        (past_row (codes "k") ∷ past_row (codes "old") ∷ [])
        calm
        store).1.rows
    ≡ none
unfolding lookup bytes_eq is_fence
cleanup_expired_keys-gone_example =
    cleanup_expired_keys-gone short_wire sample_codec fifo (pos 1000) 10 (codes "old") (24 ∷ 5 ∷ [])
      (pos 5) past (past_row (codes "k") ∷ past_row (codes "old") ∷ []) calm store refl
      (
        (refl, refl, λ s. refl, (λ s. refl, λ k. refl, refl, λ k s. refl, λ s. refl)),
        ((refl, refl, λ s. refl, (λ s. refl, λ k. refl, refl, λ k s. refl, λ s. refl)), tt),
      )
      (λ s. refl, λ k. refl, refl, λ k s. refl, λ s. refl) (inr (inl (refl, refl, refl))) (inr refl)

-- The snapshot shows a row that cannot be read; the key was rewritten since, and loses the new row.
rewritten_lost :
    (cleanup_expired_keys short_wire sample_codec fifo
      (pos 1000)
      10
      ((record (past_row (codes "k")) { value = 0 ∷ [] }) ∷ [])
      calm
      store).1.rows
    ≡ (codes "old", 24 ∷ 5 ∷ []) ∷ []
unfolding cleanup_expired_keys lookup remove bytes_eq expiry_of_row value_message_expiry
    value_message_varint_field iterate read_tag varint_field stage_eviction_index_deletes
    make_fifo_backref_key
rewritten_lost = refl

-- A row written between the re-read of the expired one and the write of the batch is lost.
lost_in_window :
    (cleanup_expired_keys short_wire sample_codec fifo
      (pos 1000)
      10
      (past_row (codes "old") ∷ [])
      (record calm {
        before_write = λ s. record s { rows = (codes "old", 0 ∷ []) ∷ (codes "k", row) ∷ [] };
      })
      store).1.rows
    ≡ (codes "k", row) ∷ []
unfolding cleanup_expired_keys lookup remove bytes_eq expiry_of_row value_message_expiry
    value_message_varint_field iterate read_tag varint_field stage_eviction_index_deletes
    make_fifo_backref_key is_fence read_varint unmarshal_value_message_skipping_data sample_codec
lost_in_window = refl
