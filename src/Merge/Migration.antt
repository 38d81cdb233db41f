-- ===== src/Merge/Migration.antt =====
-- storage/merge/operator.go: the migrations of compaction and recompaction.
use ocache.Base.{
  Bool-cases, List, [], arith, false, inl, inr, is_empty, none, not, refl, some, ◌&&◌, ◌∙◌, ◌∷◌,
  ◌≡◌,
}
use ocache.Merge.Row.{ValueMessage, is_raw_file, is_segment, op_none}
use ocache.Merge.Operator.{apply_operand, migrated, migration_matches, resolve}

-- A path-preconditioned operand that is no purge: a migration, or nothing that applies.
abbrev pub IsMigration : ValueMessage → Type 0
IsMigration op = (op.op_type ≡ op_none) × (is_raw_file op.value_type ≡ false)

abbrev pub AllMigrations : List ValueMessage → Type 0
AllMigrations [] = Unit {0}
AllMigrations (op ∷ ops) = IsMigration op × AllMigrations ops

migration_step :
    (row op : ValueMessage)
    → IsMigration op
    → (r : ValueMessage) × (apply_operand (some row) op ≡ some r) × (r.version ≡ row.version)
unfolding apply_operand migrated
migration_step row op h =
    elim (Bool-cases
      (is_segment op.value_type && not (is_empty op.raw_file_path) && migration_matches row op)) [
        | inl applies ↦ (migrated row op, ground arith, refl)
        | inr refused ↦ (row, ground arith, refl)
      ]

migration_none : (op : ValueMessage) → IsMigration op → apply_operand none op ≡ none
unfolding apply_operand
migration_none op h = ground arith

-- Compaction and recompaction are no writes: any run of migrations leaves a row with the version it
-- had, and makes none where there is none.
pub resolve-migrations :
    (row : ValueMessage) (ops : List ValueMessage)
    → AllMigrations ops
    → ((r : ValueMessage) × (resolve (some row) ops ≡ some r) × (r.version ≡ row.version))
      × (resolve none ops ≡ none)
unfolding resolve
resolve-migrations row [] h = ((row, refl, refl), refl)
resolve-migrations row (op ∷ ops) h =
    let (r, e, v) = migration_step row op h.0 in
    let rest = resolve-migrations r ops h.1 in
    let (q, e', v') = rest.0 in ((q, rw e e', v' ∙ v), rw (migration_none op h.0) rest.1)
