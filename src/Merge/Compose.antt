-- ===== src/Merge/Compose.antt =====
-- storage/merge/operator.go: RocksDB runs FullMerge again at compaction, over a prefix of the operands
-- and later over the rest. Where the two runs give what one run gives, and where they do not.
use ocache.Cas.State.{cas_classify, current_version_of}
use ocache.Cas.AloneDelete.{settle_delete-lost, settle_delete-won}
use ocache.Cas.Alone.{read_row_for_cas_retry-first}
use ocache.Cas.Io.{Outcome, mismatch, succeeded}
use ocache.Cas.Delete.{DeleteIo, settle_delete}
use ocache.Base.{
  Bool-cases, Bytes, List, Option, Option-cases, [], ap, arith, inl, inr, none, refl, some, sym, ℕ,
  ◌++◌, ◌==◌, ◌∙◌, ◌∷◌, ◌≡◌, ◌≢◌, ◌⊎◌,
}
use ocache.Merge.Row.{MetaOp, ValueMessage, cas_delete, cas_put, op_none, unknown_op}
use ocache.Merge.Operator.{apply_operand, resolve, tombstone}
use ocache.Merge.Codec.{Codec, IsCodec}
use ocache.Merge.FullMerge.{apply_bytes, finish_merge, merge_metadata_cas, resolve_bytes}

-- The row that a merge with this outcome leaves behind.
abbrev pub settle : Option ValueMessage → ValueMessage
settle none = tombstone 0
settle (some row) = row

-- A delete with a version precondition.
abbrev pub IsGuardedDelete : ValueMessage → Type 0
IsGuardedDelete op = (op.op_type ≡ cas_delete) × (op.cas_expected_version ≢ 0)

-- What an absent row and the row settled in its place have in common.
abbrev Agree : Option ValueMessage → Option ValueMessage → Type 0
Agree r q = (r ≡ q) ⊎ ((r ≡ none) × (q ≡ some (tombstone 0)))

Agree-apply_operand :
    (op : ValueMessage) (t : MetaOp)
    → op.op_type ≡ t
    → ¬ IsGuardedDelete op
    → Agree (apply_operand none op) (apply_operand (some (tombstone 0)) op)
unfolding apply_operand tombstone
Agree-apply_operand op op_none e h = inr (ground arith, ground arith)
Agree-apply_operand op (unknown_op n) e h = inr (ground arith, ground arith)
Agree-apply_operand op cas_put e h = inl (ground arith)
Agree-apply_operand op cas_delete e h = elim (Bool-cases (op.cas_expected_version == 0)) [
  | inl free ↦ inl (ground arith)
  | inr guarded ↦ absurd (h (e, ground arith))
]

apply_operand-row :
    (row op : ValueMessage) → (r : ValueMessage) × (apply_operand (some row) op ≡ some r)
unfolding apply_operand
apply_operand-row row op = (settle (apply_operand (some row) op), keep op.op_type refl)
  where
    keep :
        (t : MetaOp)
        → op.op_type ≡ t
        → apply_operand (some row) op ≡ some (settle (apply_operand (some row) op))
    keep op_none e = ground arith
    keep (unknown_op n) e = ground arith
    keep cas_put e = ground arith
    keep cas_delete e = ground arith

module _ (c : Codec) where
  -- No operand is a delete with a version precondition.
  abbrev pub Unguarded : List Bytes → Type 0
  Unguarded [] = Unit {0}
  Unguarded (o ∷ os) =
      ((op : ValueMessage) → c.unmarshal o ≡ some op → ¬ IsGuardedDelete op) × Unguarded os

  resolve_bytes-append :
      (r : Option ValueMessage) (xs ys : List Bytes)
      → resolve_bytes c r (xs ++ ys) ≡ resolve_bytes c (resolve_bytes c r xs) ys
  unfolding resolve_bytes
  resolve_bytes-append r [] ys = refl
  resolve_bytes-append r (x ∷ xs) ys = resolve_bytes-append (apply_bytes c r x) xs ys

  apply_bytes-bad :
      (r : Option ValueMessage) (o : Bytes) → c.unmarshal o ≡ none → apply_bytes c r o ≡ r
  unfolding apply_bytes
  apply_bytes-bad r o e = rw (e, apply_bytes)

  apply_bytes-good :
      (r : Option ValueMessage) (o : Bytes) {op : ValueMessage}
      → c.unmarshal o ≡ some op
      → apply_bytes c r o ≡ apply_operand r op
  unfolding apply_bytes
  apply_bytes-good r o e = rw (e, apply_bytes)

  resolve_bytes-row :
      (row : ValueMessage) (os : List Bytes)
      → (r : ValueMessage) × (resolve_bytes c (some row) os ≡ some r)
  unfolding resolve_bytes
  resolve_bytes-row row [] = (row, refl)
  resolve_bytes-row row (o ∷ os) = elim (Option-cases (c.unmarshal o)) [
    | inl bad ↦
        let (r, e) = resolve_bytes-row row os in (r, rw (apply_bytes-bad (some row) o bad) e)
    | inr (op, good) ↦
        let (q, f) = apply_operand-row row op in
        let (r, e) = resolve_bytes-row q os in (r, rw (apply_bytes-good (some row) o good, f) e)
  ]

  settled-Agree :
      (os : List Bytes)
      → Unguarded os
      → Agree (resolve_bytes c none os) (resolve_bytes c (some (tombstone 0)) os)
  unfolding resolve_bytes
  settled-Agree [] h = inr (refl, refl)
  settled-Agree (o ∷ os) h = elim (Option-cases (c.unmarshal o)) [
    | inl bad ↦
        rw (apply_bytes-bad none o bad, apply_bytes-bad (some (tombstone 0)) o bad)
          (settled-Agree os h.1)
    | inr (op, e) ↦
        rw (apply_bytes-good none o e, apply_bytes-good (some (tombstone 0)) o e)
          (elim (Agree-apply_operand op op.op_type refl (h.0 op e)) [
            | inl same ↦ rw same (inl refl)
            | inr (n, d) ↦ rw (n, d) (settled-Agree os h.1)
          ])
  ]

  module _ (laws : IsCodec c) where
    unmarshal-finish_merge :
        (r : Option ValueMessage) (b : Bytes)
        → finish_merge c r ≡ some b
        → c.unmarshal b ≡ some (settle r)
    unfolding finish_merge
    unmarshal-finish_merge none b e =
        laws.unmarshal_marshal (tombstone 0) b (laws.marshal_sentinel ∙ e)
    unmarshal-finish_merge (some row) b e = laws.unmarshal_marshal row b e

    finish_merge-Agree :
        (r q : Option ValueMessage) → Agree r q → finish_merge c q ≡ finish_merge c r
    unfolding finish_merge
    finish_merge-Agree r q (inl e) = ap (finish_merge c) (sym e)
    finish_merge-Agree r q (inr (n, d)) = rw (n, d) laws.marshal_sentinel

    merge-row :
        (d : ℕ) (ds : Bytes) (os : List Bytes) {row : ValueMessage}
        → c.unmarshal (d ∷ ds) ≡ some row
        → merge_metadata_cas c (d ∷ ds) os ≡ finish_merge c (resolve_bytes c (some row) os)
    unfolding merge_metadata_cas
    merge-row d ds os e = rw (e, merge_metadata_cas)

    merge-unreadable :
        (d : ℕ) (ds : Bytes) (os : List Bytes)
        → c.unmarshal (d ∷ ds) ≡ none
        → merge_metadata_cas c (d ∷ ds) os ≡ some (d ∷ ds)
    unfolding merge_metadata_cas
    merge-unreadable d ds os e = rw (e, merge_metadata_cas)

    -- A row that was merged and stored is taken up where the merge left it.
    reload :
        (r : Option ValueMessage) (b : ℕ) (bs : Bytes) (os : List Bytes)
        → finish_merge c r ≡ some (b ∷ bs)
        → ((row : ValueMessage) × (r ≡ some row)) ⊎ Unguarded os
        → merge_metadata_cas c (b ∷ bs) os ≡ finish_merge c (resolve_bytes c r os)
    reload none b bs os e (inl (row, h)) = cc
    reload none b bs os e (inr h) =
        merge-row b bs os (unmarshal-finish_merge none (b ∷ bs) e)
        ∙ finish_merge-Agree (resolve_bytes c none os) _ (settled-Agree os h)
    reload (some row) b bs os e h = merge-row b bs os (unmarshal-finish_merge (some row) (b ∷ bs) e)

    -- Running FullMerge over a prefix of the operands and later over the rest gives what one run over
    -- all of them gives, where the first run leaves bytes that are not empty, and either it is over bytes
    -- that are not empty (an empty value counts as a missing row), or the rest holds no delete with a
    -- version precondition.
    pub merge_metadata_cas-append :
        (existing : Bytes) (b : ℕ) (bs : Bytes) (xs ys : List Bytes)
        → merge_metadata_cas c existing xs ≡ some (b ∷ bs)
        → (existing ≢ []) ⊎ Unguarded ys
        → merge_metadata_cas c (b ∷ bs) ys ≡ merge_metadata_cas c existing (xs ++ ys)
    merge_metadata_cas-append [] b bs xs ys e (inl h) = absurd (h refl)
    merge_metadata_cas-append [] b bs xs ys e (inr h) =
        reload (resolve_bytes c none xs) b bs ys (unfold merge_metadata_cas in e) (inr h)
        ∙ unfold merge_metadata_cas in ap (finish_merge c) (sym (resolve_bytes-append none xs ys))
    merge_metadata_cas-append (d ∷ ds) b bs xs ys e h = elim (Option-cases (c.unmarshal (d ∷ ds))) [
      | inl bad ↦
          let same : some (b ∷ bs) ≡ some (d ∷ ds) = sym e ∙ merge-unreadable d ds xs bad in
          let again = merge-unreadable d ds ys bad in
          let whole = merge-unreadable d ds (xs ++ ys) bad in cc
      | inr (row, good) ↦
          let kept = resolve_bytes-row row xs in
          reload (resolve_bytes c (some row) xs) b bs ys (sym (merge-row d ds xs good) ∙ e)
            (inl kept)
          ∙ ap (finish_merge c) (sym (resolve_bytes-append (some row) xs ys))
          ∙ sym (merge-row d ds (xs ++ ys) good)
    ]

-- Over a missing row, a migration operand (which applies to no missing row) and behind it a delete guarded on
-- a version, with a stamp of its own that is not 0: resolved in one run, the delete leaves an unstamped
-- tombstone and its caller, reading that back, returns a mismatch; resolved behind a compaction of the
-- migration, it leaves its stamp and its caller returns success.
pub guarded_delete_diverges :
    (op del : ValueMessage) (io : DeleteIo) (prev : Option ValueMessage)
    → op.op_type ≡ op_none
    → IsGuardedDelete del
    → del.version ≢ 0
    → let at_once = resolve none (op ∷ del ∷ []) in
      let compacted = resolve (some (settle (resolve none (op ∷ [])))) (del ∷ []) in
      (at_once ≡ some (tombstone 0))
      × (compacted ≡ some (tombstone del.version))
      × ((settle_delete (record io { readback = λ _. some at_once }) del.version prev).result
          ≡ mismatch 0)
      × ((settle_delete (record io { readback = λ _. some compacted }) del.version prev).result
          ≡ succeeded del.version)
unfolding resolve apply_operand tombstone current_version_of cas_classify
guarded_delete_diverges op del io prev e h stamped =
    let whole : resolve none (op ∷ del ∷ []) ≡ some (tombstone 0) = ground arith in
    let split : resolve (some (settle (resolve none (op ∷ [])))) (del ∷ [])
        ≡ some (tombstone del.version) =
      ground arith in
    let once : DeleteIo = record io { readback = λ _. some (some (tombstone 0)) } in
    let later : DeleteIo = record io { readback = λ _. some (some (tombstone del.version)) } in
    (
      whole,
      split,
      ap (λ r. (settle_delete (record io { readback = λ _. some r }) del.version prev).result) whole
          ∙ settle_delete-lost once del.version prev (tombstone 0)
              (read_row_for_cas_retry-first once.readback refl) (λ same. stamped (sym same)),
      ap (λ r. (settle_delete (record io { readback = λ _. some r }) del.version prev).result) split
          ∙ ap (λ (o : Outcome). o.result)
              (settle_delete-won later del.version prev (tombstone del.version)
                (read_row_for_cas_retry-first later.readback refl) refl),
    )
