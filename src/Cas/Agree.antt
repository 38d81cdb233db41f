-- ===== src/Cas/Agree.antt =====
-- storage/cas.go and storage/merge/operator.go: the storage side's admission and the merge operator's
-- agree on a row that both see.
use ocache.Base.{Bool-cases, Option, arith, inl, inr, none, refl, some, true, ℕ, ◌&&◌, ◌≡◌}
use ocache.Base.Int.{eqb_ℤ, leb_ℤ, ltb_ℤ, pos}
use ocache.Merge.Row.{ValueMessage, tombstone_expiry}
use ocache.Merge.Operator.{apply_delete, put_applies, tombstone}
use ocache.Cas.State.{cas_admits, cas_classify, operand_expected}
use ocache.Cas.Delete.{delete_refusal}

abbrev pub send : ℕ → Option ValueMessage → ℕ → ValueMessage → ValueMessage
send now row expected op = record op {
  cas_expected_version = operand_expected (cas_classify now row).0 row expected;
}

-- What the storage side admits on a row, the merge operator applies to that row, an expired row's
-- precondition being translated on the way.
pub put_applies-send :
    (now : ℕ) (row : Option ValueMessage) (expected : ℕ) (op : ValueMessage)
    → cas_admits (cas_classify now row).0 (cas_classify now row).1 expected ≡ true
    → put_applies row (send now row expected op) ≡ true
unfolding cas_classify cas_admits operand_expected put_applies
put_applies-send now none expected op h = refl
put_applies-send now (some vm) expected op h =
    elim (Bool-cases (eqb_ℤ vm.expiry tombstone_expiry)) [
      | inl dead ↦ ground arith
      | inr live ↦ elim (Bool-cases (ltb_ℤ (pos 0) vm.expiry && leb_ℤ vm.expiry (pos now))) [
        | inl expired ↦ ground arith
        | inr current ↦ ground arith
      ]
    ]

-- The same for a delete.
pub delete_applies-send :
    (now : ℕ) (row : Option ValueMessage) (expected : ℕ) (op : ValueMessage)
    → delete_refusal (cas_classify now row).0 (cas_classify now row).1 expected ≡ none
    → apply_delete row (send now row expected op) ≡ some (tombstone op.version)
unfolding cas_classify cas_admits operand_expected apply_delete delete_refusal
delete_applies-send now none expected op h = ground arith
delete_applies-send now (some vm) expected op h =
    elim (Bool-cases (eqb_ℤ vm.expiry tombstone_expiry)) [
      | inl dead ↦ ground arith
      | inr live ↦ elim (Bool-cases (ltb_ℤ (pos 0) vm.expiry && leb_ℤ vm.expiry (pos now))) [
        | inl expired ↦ ground arith
        | inr current ↦ ground arith
      ]
    ]
