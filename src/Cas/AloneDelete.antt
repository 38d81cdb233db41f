-- ===== src/Cas/AloneDelete.antt =====
-- storage/cas.go: what DeleteIfVersion does when nothing interferes and nothing fails.
use ocache.Base.Int.{pos, ◌-ℤ◌}
use ocache.Base.{List, Option, [], arith, false, is_empty, none, some, true, ℕ, ◌++◌, ◌∷◌, ◌≡◌, ◌≢◌}
use ocache.Merge.Row.{ValueMessage, ValueType, inline, raw_file, segment, unknown_type}
use ocache.Merge.Operator.{apply_delete}
use ocache.Cas.State.{current_version_of, read_row_for_cas_retry}
use ocache.Cas.Io.{
  Effect, credit_segment, drop_eviction, mismatch, stage_raw, succeeded, update_size,
}
use ocache.Cas.Delete.{DeleteIo, delete_operand, finish_won_delete, settle_delete}
use ocache.Cas.Agree.{send}

-- Every step goes through, and the read and the merge see `row`.
pub record AloneDelete (io : DeleteIo) (row : Option ValueMessage) (expected stamp : ℕ)
    : Type 0 where
  pub read : io.row_read ≡ some row
  pub stamped : io.stamp ≡ some stamp
  pub marshals : io.marshalled ≡ true
  pub merges : io.merged ≡ true
  pub reads_back :
      io.readback 0
      ≡ some (apply_delete row (send io.now row expected (delete_operand stamp expected)))

pub settle_delete-won :
    (io : DeleteIo) (stamp : ℕ) (prev : Option ValueMessage) (got : ValueMessage)
    → read_row_for_cas_retry io.readback ≡ some (some got)
    → got.version ≡ stamp
    → settle_delete io stamp prev
      ≡ record { result = succeeded stamp; effects = finish_won_delete prev }
unfolding settle_delete
settle_delete-won io stamp prev got e v = ground arith

pub settle_delete-lost :
    (io : DeleteIo) (stamp : ℕ) (prev : Option ValueMessage) (got : ValueMessage)
    → read_row_for_cas_retry io.readback ≡ some (some got)
    → got.version ≢ stamp
    → (settle_delete io stamp prev).result
      ≡ mismatch (current_version_of io.readback_now (some got))
unfolding settle_delete
settle_delete-lost io stamp prev got e v = ground arith

-- What a value gives back: the dead bytes of a segment are credited to it, a raw file is queued, and any
-- other value, or one without a path, has nothing to give.
abbrev pub Returns : ValueType → ValueMessage → List Effect → Type 0
Returns inline vm es = es ≡ []
Returns raw_file vm es =
    (is_empty vm.raw_file_path ≡ false → es ≡ stage_raw vm.raw_file_path ∷ [])
    × (is_empty vm.raw_file_path ≡ true → es ≡ [])
Returns segment vm es =
    (is_empty vm.segment_path ≡ false → es ≡ credit_segment vm.segment_path vm.value_length ∷ [])
    × (is_empty vm.segment_path ≡ true → es ≡ [])
Returns (unknown_type n) vm es = es ≡ []

-- The value of the row is given back, its length taken off the store's size, and the key's entry in the
-- eviction index dropped; a key without a row has only the entry to lose.
abbrev pub Freed : Option ValueMessage → List Effect → Type 0
Freed none es = es ≡ drop_eviction ∷ []
Freed (some vm) es =
    (given : List Effect) × Returns vm.value_type vm given
    × (es ≡ given ++ update_size (pos 0 -ℤ vm.value_length) ∷ drop_eviction ∷ [])
