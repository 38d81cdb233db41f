-- ===== src/Merge/Readback.antt =====
-- storage/merge/operator.go: how a CAS writer learns from the row it reads back whether it won.
use ocache.Base.{
  ==_iff, Bool-cases, Option, arith, if◌then◌else◌, inl, inr, none, refl, some, sym, true, ℕ, ◌==◌,
  ◌↔◌, ◌≡◌, ◌≢◌, ◌≤◌, ◌⊎◌,
}
use ocache.Base.Int.{eqb_ℤ, eqb_ℤ_iff}
use ocache.Merge.Row.{ValueMessage, tombstone_expiry, version_legacy}
use ocache.Merge.Operator.{apply_delete, put_applies, tombstone}

-- The version rule of the design, row by row: what a writer must have observed for its write to apply.
abbrev pub Admits : Option ValueMessage → ℕ → Type 0
Admits none expected = Unit {0}
Admits (some row) expected =
    ((row.expiry ≡ tombstone_expiry) × ((expected ≡ 0) ⊎ (row.version ≤ expected)))
    ⊎ ((row.expiry ≢ tombstone_expiry) × (row.version ≢ 0) × (expected ≡ row.version))
    ⊎ ((row.expiry ≢ tombstone_expiry) × (row.version ≡ 0) × (expected ≡ version_legacy))

abbrev pub version_of : Option ValueMessage → ℕ
version_of none = 0
version_of (some row) = row.version

put_applies-Admits :
    (row op : ValueMessage)
    → put_applies (some row) op ≡ true
    → Admits (some row) op.cas_expected_version
unfolding put_applies
put_applies-Admits row op h = elim (Bool-cases (eqb_ℤ row.expiry tombstone_expiry)) [
  | inl dead ↦ ground (arith, eqb_ℤ_iff row.expiry tombstone_expiry)
  | inr live ↦ ground (arith, eqb_ℤ_iff row.expiry tombstone_expiry)
]

Admits-put_applies :
    (row op : ValueMessage)
    → Admits (some row) op.cas_expected_version
    → put_applies (some row) op ≡ true
unfolding put_applies
Admits-put_applies row op h = ground (arith, eqb_ℤ_iff row.expiry tombstone_expiry)

-- A delete needs the same of a row, and of a missing row that its caller guarded on nothing.
abbrev pub DeleteAdmits : Option ValueMessage → ℕ → Type 0
DeleteAdmits none expected = expected ≡ 0
DeleteAdmits (some row) expected = Admits (some row) expected

apply_delete-none :
    (op : ValueMessage)
    → apply_delete none op
      ≡ (if op.cas_expected_version == 0 then some (tombstone op.version) else some (tombstone 0))
unfolding apply_delete
apply_delete-none op = refl

-- apply_delete and apply_put go by one rule on a row that is there.
apply_delete-some :
    (row op : ValueMessage)
    → apply_delete (some row) op
      ≡ (if put_applies (some row) op then some (tombstone op.version) else some row)
unfolding apply_delete put_applies
apply_delete-some row op = ground arith

-- The read-back after a delete with a fresh non-zero stamp shows that stamp exactly when the delete was
-- admitted, and then the row is the ref-less tombstone of that stamp. A refused delete leaves a row as
-- it was, and turns a missing row into an unstamped tombstone.
pub apply_delete-readback :
    (row : Option ValueMessage) (op : ValueMessage)
    → op.version ≢ 0
    → version_of row ≢ op.version
    → ((version_of (apply_delete row op) ≡ op.version) ↔ DeleteAdmits row op.cas_expected_version)
      × ((apply_delete row op ≡ some (tombstone op.version))
          ⊎ ((apply_delete row op ≡ row) × (row ≢ none))
          ⊎ ((apply_delete row op ≡ some (tombstone 0)) × (row ≡ none)))
apply_delete-readback none op nz fresh = elim (Bool-cases (op.cas_expected_version == 0)) [
  | inl free ↦
      rw (apply_delete-none op, free)
        (
          ((λ _. (==_iff op.cas_expected_version 0).0 free), (λ _. unfold tombstone in refl)),
          inl refl,
        )
  | inr guarded ↦
      rw (apply_delete-none op, guarded)
        (
          ((λ e. absurd (nz (unfold tombstone in sym e))), (λ e. ground arith)),
          inr (inr (refl, refl)),
        )
]
apply_delete-readback (some row) op nz fresh = elim (Bool-cases (put_applies (some row) op)) [
  | inl applies ↦
      rw (apply_delete-some row op, applies)
        (((λ _. put_applies-Admits row op applies), (λ _. unfold tombstone in refl)), inl refl)
  | inr refused ↦
      rw (apply_delete-some row op, refused)
        (
          ((λ e. absurd (fresh e)), (λ a. let applies = Admits-put_applies row op a in cc)),
          inr (inl (refl, λ e. cc)),
        )
]
