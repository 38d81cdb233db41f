-- ===== src/Tests/Merge.antt =====
-- The merge operator at concrete inputs.
use ocache.Cas.Io.{mismatch, succeeded}
use ocache.Cas.Delete.{DeleteIo, settle_delete}
use mathlib.Core.Option
use native.Mathlib.Decide.{ℕ_discrete}
use ocache.Base.{
  Bytes, [], arith, bytes_eq, codes, inl, none, refl, some, true, ℕ, ◌↔◌, ◌∷◌, ◌≡◌, ◌≢◌, ◌≤◌, ◌⊎◌,
}
use ocache.Keys.Text.{has_prefix}
use ocache.Keys.Format.{is_delete_index_key, make_delete_index_key}
use ocache.Merge.Row.{ValueMessage, cas_delete, cas_put, raw_file, segment, zero_message}
use ocache.Merge.Operator.{apply_delete, apply_operand, resolve, tombstone}
use ocache.Merge.Codec.{expired_sentinel}
use ocache.Merge.FullMerge.{
  add_delete_operand, add_delete_operands, apply_bytes, full_merge, merge_delete_index,
  merge_metadata_cas, no_deletions, resolve_bytes, start_entry,
}
use ocache.Merge.Fence.{resolve-fence}
use ocache.Merge.Readback.{DeleteAdmits, apply_delete-readback, version_of}
use ocache.Merge.Migration.{resolve-migrations}
use ocache.Merge.Compose.{guarded_delete_diverges, merge_metadata_cas-append, settle}
use ocache.Merge.DeleteIndex.{add_delete_operands-operands, full_merge-delete_index, operands}
use ocache.Merge.SampleCodec.{sample_codec, sample_codec-IsCodec}

abbrev put_operand : ℕ → ℕ → ValueMessage
put_operand expected stamp = record zero_message {
  body = codes "v";
  version = stamp;
  op_type = cas_put;
  cas_expected_version = expected;
}

abbrev delete_operand : ℕ → ℕ → ValueMessage
delete_operand expected stamp = record zero_message {
  version = stamp;
  op_type = cas_delete;
  cas_expected_version = expected;
}

abbrev raw_row : ValueMessage
raw_row = record zero_message { value_type = raw_file; raw_file_path = codes "raw/1"; version = 40 }

abbrev migration : ValueMessage
migration = record zero_message {
  value_type = segment;
  raw_file_path = codes "raw/1";
  segment_path = codes "seg/9";
  version = 7;
}

-- A populate that read before the delete, and a migration that started before it.
resolve-fence_example :
    (w : ℕ) × (50 ≤ w)
    × (resolve (some (tombstone 50)) (put_operand 44 60 ∷ migration ∷ []) ≡ some (tombstone w))
resolve-fence_example =
    resolve-fence 50 (put_operand 44 60 ∷ migration ∷ []) ((omega arith, omega arith), (tt, tt))

apply_delete-readback_case :
    ((version_of (apply_delete (some raw_row) (delete_operand 40 60)) ≡ 60)
      ↔ DeleteAdmits (some raw_row) 40)
    × ((apply_delete (some raw_row) (delete_operand 40 60) ≡ some (tombstone 60))
        ⊎ ((apply_delete (some raw_row) (delete_operand 40 60) ≡ some raw_row)
            × (some raw_row ≢ none))
        ⊎ ((apply_delete (some raw_row) (delete_operand 40 60) ≡ some (tombstone 0))
            × (some raw_row ≡ none)))
apply_delete-readback_case =
    apply_delete-readback (some raw_row) (delete_operand 40 60) (omega arith) (omega arith)

resolve-migrations_case :
    ((r : ValueMessage) × (resolve (some raw_row) (migration ∷ []) ≡ some r) × (r.version ≡ 40))
    × (resolve none (migration ∷ []) ≡ none)
resolve-migrations_case = resolve-migrations raw_row (migration ∷ []) ((refl, refl), tt)

migration_runs :
    Option.map (λ r. r.segment_path) (resolve (some raw_row) (migration ∷ []))
    ≡ some (codes "seg/9")
unfolding resolve apply_operand bytes_eq
migration_runs = refl

-- A delete of stamp 60 with no precondition, and the fence that it leaves.
abbrev delete_bytes : Bytes
delete_bytes = 255 ∷ 0 ∷ 0 ∷ 2 ∷ 0 ∷ 0 ∷ 0 ∷ 0 ∷ 0 ∷ 0 ∷ 0 ∷ 0 ∷ 60 ∷ 0 ∷ 0 ∷ 0 ∷ []

abbrev fence_bytes : Bytes
fence_bytes = 255 ∷ 0 ∷ 0 ∷ 0 ∷ 0 ∷ 0 ∷ 1 ∷ 0 ∷ 0 ∷ 0 ∷ 0 ∷ 0 ∷ 60 ∷ 0 ∷ 0 ∷ 0 ∷ []

fence_stored :
    merge_metadata_cas sample_codec expired_sentinel (delete_bytes ∷ []) ≡ some fence_bytes
unfolding merge_metadata_cas sample_codec resolve_bytes apply_bytes apply_operand bytes_eq
    ℕ_discrete
fence_stored = refl

merge_metadata_cas-append_example :
    merge_metadata_cas sample_codec fence_bytes (delete_bytes ∷ [])
    ≡ merge_metadata_cas sample_codec expired_sentinel (delete_bytes ∷ delete_bytes ∷ [])
merge_metadata_cas-append_example =
    merge_metadata_cas-append sample_codec sample_codec-IsCodec expired_sentinel 255
      (0 ∷ 0 ∷ 0 ∷ 0 ∷ 0 ∷ 1 ∷ 0 ∷ 0 ∷ 0 ∷ 0 ∷ 0 ∷ 60 ∷ 0 ∷ 0 ∷ 0 ∷ []) (delete_bytes ∷ [])
      (delete_bytes ∷ []) fence_stored (inl (λ e. cc))

abbrev delete_io : DeleteIo
delete_io = record {
  row_read = some none;
  now = 9;
  stamp = some 60;
  marshalled = true;
  merged = true;
  readback = λ _. none;
  readback_now = 9;
}

guarded_delete_diverges_example :
    let at_once = resolve none (migration ∷ delete_operand 40 60 ∷ []) in
    let compacted =
      resolve (some (settle (resolve none (migration ∷ [])))) (delete_operand 40 60 ∷ []) in
    (at_once ≡ some (tombstone 0))
    × (compacted ≡ some (tombstone 60))
    × ((settle_delete (record delete_io { readback = λ _. some at_once }) 60 none).result
        ≡ mismatch 0)
    × ((settle_delete (record delete_io { readback = λ _. some compacted }) 60 none).result
        ≡ succeeded 60)
guarded_delete_diverges_example =
    guarded_delete_diverges migration (delete_operand 40 60) delete_io none refl (refl, omega arith)
      (omega arith)

add_delete_operands-operands_case :
    add_delete_operands no_deletions (operands ((1, 100) ∷ (2, 250) ∷ []))
    ≡ record { deleted_entries = 3; deleted_bytes = 350 }
add_delete_operands-operands_case =
    add_delete_operands-operands no_deletions ((1, 100) ∷ (2, 250) ∷ []) (omega arith) (omega arith)
      (omega arith)

abbrev credit : Bytes
credit = 1 ∷ 0 ∷ 0 ∷ 0 ∷ 0 ∷ 0 ∷ 0 ∷ 0 ∷ 100 ∷ 0 ∷ 0 ∷ 0 ∷ 0 ∷ 0 ∷ 0 ∷ 0 ∷ []

credit_stored :
    full_merge sample_codec (make_delete_index_key (codes "seg/9")) [] (credit ∷ [])
    ≡ some (1 ∷ 1 ∷ 100 ∷ [])
unfolding full_merge sample_codec make_delete_index_key is_delete_index_key has_prefix
    merge_delete_index add_delete_operands add_delete_operand
credit_stored = refl

full_merge-delete_index_example :
    (full_merge sample_codec
        (make_delete_index_key (codes "seg/9"))
        (1 ∷ 1 ∷ 100 ∷ [])
        (credit ∷ [])
      ≡ full_merge sample_codec (make_delete_index_key (codes "seg/9")) [] (credit ∷ credit ∷ []))
    × (full_merge sample_codec
          (make_delete_index_key (codes "seg/9"))
          (1 ∷ 1 ∷ 100 ∷ [])
          (credit ∷ [])
        ≡ sample_codec.marshal_entry
            (add_delete_operands (start_entry sample_codec []) (credit ∷ credit ∷ [])))
full_merge-delete_index_example =
    full_merge-delete_index sample_codec sample_codec-IsCodec (codes "seg/9") [] (1 ∷ 1 ∷ 100 ∷ [])
      (credit ∷ []) (credit ∷ []) credit_stored
