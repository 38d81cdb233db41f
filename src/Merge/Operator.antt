-- ===== src/Merge/Operator.antt =====
-- storage/merge/operator.go: one operand against one row (the body of the loop of mergeMetadataCAS),
-- and the loop. A row that is absent (`!hadBase`) is `none`. Messages are decoded here.
use ocache.Base.{
  Bool, List, Option, [], bytes_eq, if◌then◌else◌, is_empty, none, not, some, true, ℕ, ◌&&◌, ◌==◌,
  ◌||◌, ◌∷◌,
}
use ocache.Base.Int.{eqb_ℤ}
use ocache.Merge.Row.{
  MetaOp, ValueMessage, cas_delete, cas_put, effective_row_version, fence_admits, is_raw_file,
  is_segment, op_none, tombstone_expiry, unknown_op, zero_message,
}

-- {Expiry: tombstoneExpiry, Version: v}
unfoldable pub tombstone : ℕ → ValueMessage
tombstone v = record zero_message { expiry = tombstone_expiry; version = v }

-- The operand without its operand-only fields.
unfoldable pub adopt : ValueMessage → ValueMessage
adopt op = record op { op_type = op_none; cas_expected_version = 0 }

unfoldable pub put_applies : Option ValueMessage → ValueMessage → Bool
unfolding fence_admits effective_row_version
put_applies none op = true
put_applies (some base) op =
    if eqb_ℤ base.expiry tombstone_expiry
    then fence_admits base op.cas_expected_version
    else effective_row_version (some base) == op.cas_expected_version

unfoldable pub apply_put : Option ValueMessage → ValueMessage → Option ValueMessage
unfolding put_applies adopt
apply_put base op = if put_applies base op then some (adopt op) else base

unfoldable pub apply_delete : Option ValueMessage → ValueMessage → Option ValueMessage
unfolding fence_admits effective_row_version tombstone
apply_delete none op =
    if op.cas_expected_version == 0 then some (tombstone op.version) else some (tombstone 0)
apply_delete (some base) op =
    if eqb_ℤ base.expiry tombstone_expiry
    then (if fence_admits base op.cas_expected_version
        then some (tombstone op.version)
        else some base)
    else if effective_row_version (some base) == op.cas_expected_version
    then some (tombstone op.version)
    else some base

unfoldable pub apply_purge : Option ValueMessage → ValueMessage → Option ValueMessage
unfolding tombstone
apply_purge none op = none
apply_purge (some base) op =
    if is_raw_file base.value_type && bytes_eq base.raw_file_path op.raw_file_path
    then some (tombstone 0)
    else some base

-- The row a migration writes: the operand's location under the base's version.
unfoldable pub migrated : ValueMessage → ValueMessage → ValueMessage
migrated base op = record op {
  raw_file_path = [];
  version = base.version;
  op_type = op_none;
  cas_expected_version = 0;
}

unfoldable pub migration_matches : ValueMessage → ValueMessage → Bool
migration_matches base op =
    (is_raw_file base.value_type && bytes_eq base.raw_file_path op.raw_file_path)
    || (is_segment base.value_type && bytes_eq base.segment_path op.raw_file_path)

unfoldable pub apply_migration : Option ValueMessage → ValueMessage → Option ValueMessage
unfolding migrated migration_matches
apply_migration none op = none
apply_migration (some base) op =
    if is_segment op.value_type && not (is_empty op.raw_file_path) && migration_matches base op
    then some (migrated base op)
    else some base

-- An operand with no version-CAS tag: the purge of a dangling raw file, or a migration.
unfoldable pub apply_path_cas : Option ValueMessage → ValueMessage → Option ValueMessage
unfolding apply_purge apply_migration
apply_path_cas base op =
    if is_raw_file op.value_type && not (is_empty op.raw_file_path)
    then apply_purge base op
    else apply_migration base op

apply_by_type : MetaOp → Option ValueMessage → ValueMessage → Option ValueMessage
unfolding apply_put apply_delete apply_path_cas
apply_by_type cas_put base op = apply_put base op
apply_by_type cas_delete base op = apply_delete base op
apply_by_type op_none base op = apply_path_cas base op
apply_by_type (unknown_op n) base op = apply_path_cas base op

unfoldable pub apply_operand : Option ValueMessage → ValueMessage → Option ValueMessage
unfolding apply_by_type
apply_operand base op = apply_by_type op.op_type base op

unfoldable pub resolve : Option ValueMessage → List ValueMessage → Option ValueMessage
resolve base [] = base
resolve base (op ∷ ops) = resolve (apply_operand base op) ops
