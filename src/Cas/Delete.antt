-- ===== src/Cas/Delete.antt =====
-- storage/cas.go: DeleteIfVersion.
use ocache.Base.{Bool, List, Option, [], if◌then◌else◌, none, not, some, ℕ, ◌++◌, ◌==◌, ◌∷◌}
use ocache.Base.Int.{pos, ◌-ℤ◌}
use ocache.Merge.Row.{ValueMessage, cas_delete, zero_message}
use ocache.Cas.State.{
  CasRowState, Read, cas_absent, cas_admits, cas_classify, cas_fenced, cas_live, current_version_of,
  operand_expected, read_row_for_cas_retry,
}
use ocache.Cas.Io.{
  Effect, Outcome, after, drop_eviction, ends, failed, internal_error, merge_row, mismatch, reclaim,
  reclaim_replaced_value, rocksdb_error, succeeded, update_size,
}

pub record DeleteIo : Type 0 where
  pub row_read : Read
  pub now : ℕ
  pub stamp : Option ℕ
  pub marshalled : Bool
  pub merged : Bool
  pub readback : ℕ → Read
  pub readback_now : ℕ

abbrev pub delete_operand : ℕ → ℕ → ValueMessage
delete_operand stamp expected = record zero_message {
  version = stamp;
  op_type = cas_delete;
  cas_expected_version = expected;
}

-- Admission, narrowed on a plainly absent key to a delete with no precondition; a refusal carries the
-- current version.
unfoldable pub delete_refusal : CasRowState → ℕ → ℕ → Option ℕ
delete_refusal cas_live cur expected = if cur == expected then none else some cur
delete_refusal cas_fenced cur expected =
    if cas_admits cas_fenced cur expected then none else some cur
delete_refusal cas_absent cur expected = if expected == 0 then none else some 0

-- A confirmed win frees the replaced value and its eviction entries.
unfoldable pub finish_won_delete : Option ValueMessage → List Effect
unfolding reclaim_replaced_value
finish_won_delete none = drop_eviction ∷ []
finish_won_delete (some prev) =
    reclaim_replaced_value prev ++ (update_size (pos 0 -ℤ prev.value_length) ∷ drop_eviction ∷ [])

unfoldable pub settle_delete : DeleteIo → ℕ → Option ValueMessage → Outcome
settle_delete io stamp prev = elim (read_row_for_cas_retry io.readback) [
  | none ↦ record { result = failed rocksdb_error; effects = reclaim prev }
  | some none ↦ ends (mismatch 0)
  | some (some got) ↦
      if got.version == stamp
      then record { result = succeeded stamp; effects = finish_won_delete prev }
      else ends (mismatch (current_version_of io.readback_now (some got)))
]

unfoldable pub commit_delete : DeleteIo → ℕ → CasRowState → Option ValueMessage → ℕ → Outcome
commit_delete io expected state prev stamp =
    let sent : ValueMessage = delete_operand stamp (operand_expected state prev expected) in
    if not io.marshalled
    then ends (failed internal_error)
    else if not io.merged
    then ends (failed rocksdb_error)
    else after (merge_row sent ∷ []) (settle_delete io stamp prev)

unfoldable pub delete_if_version : DeleteIo → ℕ → Outcome
delete_if_version io expected = elim io.row_read [
  | none ↦ ends (failed rocksdb_error)
  | some prev ↦
      let (state, cur) = cas_classify io.now prev in
      elim (delete_refusal state cur expected) [
        | some current ↦ ends (mismatch current)
        | none ↦ elim io.stamp [
          | none ↦ ends (failed internal_error)
          | some stamp ↦ commit_delete io expected state prev stamp
        ]
      ]
]
