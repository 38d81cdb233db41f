-- ===== src/Merge/Fence.antt =====
-- storage/merge/operator.go: the fence that a delete leaves behind.
use ocache.Base.{Bool-cases, List, [], arith, inl, inr, refl, some, ℕ, ◌<◌, ◌∷◌, ◌≡◌, ◌≤◌}
use ocache.Merge.Row.{MetaOp, ValueMessage, cas_delete, cas_put, fence_admits, op_none, unknown_op}
use ocache.Merge.Operator.{apply_operand, resolve, tombstone}

-- Operands that a fence of stamp `s` must hold against: a put that observed the key before the fence,
-- a delete with a later stamp, and the purges and migrations of background work, whatever they say.
abbrev pub IsStaleAs : ℕ → MetaOp → ValueMessage → Type 0
IsStaleAs s cas_put op = (0 < op.cas_expected_version) × (op.cas_expected_version < s)
IsStaleAs s cas_delete op = s ≤ op.version
IsStaleAs s op_none op = Unit {0}
IsStaleAs s (unknown_op n) op = Unit {0}

abbrev pub AllStale : ℕ → List ValueMessage → Type 0
AllStale s [] = Unit {0}
AllStale s (op ∷ ops) = IsStaleAs s op.op_type op × AllStale s ops

-- One operand moves a fence forward or leaves it.
fence_step :
    (s v : ℕ) (t : MetaOp) (op : ValueMessage)
    → s ≤ v
    → op.op_type ≡ t
    → IsStaleAs s t op
    → (w : ℕ) × (s ≤ w) × (apply_operand (some (tombstone v)) op ≡ some (tombstone w))
unfolding apply_operand tombstone
fence_step s v cas_put op h e stale = (v, h, ground arith)
fence_step s v cas_delete op h e stale =
    elim (Bool-cases (fence_admits (tombstone v) op.cas_expected_version)) [
      | inl admitted ↦ (op.version, stale, ground arith)
      | inr refused ↦ (v, h, ground arith)
    ]
fence_step s v op_none op h e stale = (v, h, ground arith)
fence_step s v (unknown_op n) op h e stale = (v, h, ground arith)

fences :
    (s v : ℕ) (ops : List ValueMessage)
    → s ≤ v
    → AllStale s ops
    → (w : ℕ) × (s ≤ w) × (resolve (some (tombstone v)) ops ≡ some (tombstone w))
unfolding resolve
fences s v [] h stale = (v, h, refl)
fences s v (op ∷ ops) h stale =
    let (w, le, e) = fence_step s v op.op_type op h refl stale.0 in
    let (x, le', e') = fences s w ops le stale.1 in (x, le', rw e e')

-- Behind a fence of stamp s the key stays deleted: whatever stale operands follow, the row resolves
-- to a ref-less tombstone whose stamp is s or later.
pub resolve-fence :
    (s : ℕ) (ops : List ValueMessage)
    → AllStale s ops
    → (w : ℕ) × (s ≤ w) × (resolve (some (tombstone s)) ops ≡ some (tombstone w))
resolve-fence s ops stale = fences s s ops (omega arith) stale
