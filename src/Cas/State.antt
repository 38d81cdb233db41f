-- ===== src/Cas/State.antt =====
-- storage/cas.go: how the entry points read a row (casClassify, casAdmits, currentVersionOf,
-- readRowForCAS and its retry).
use ocache.Base.{
  Bool, Bytes, Option, false, if◌then◌else◌, leb, none, not, some, suc, true, zero, ℕ, ◌&&◌, ◌+◌,
  ◌==◌, ◌||◌,
}
use ocache.Base.Int.{eqb_ℤ, leb_ℤ, ltb_ℤ, pos}
use ocache.Merge.Row.{ValueMessage, effective_row_version, tombstone_expiry}
use ocache.Merge.Codec.{Codec}

pub data CasRowState : Type 0 where
  cas_absent cas_fenced cas_live : CasRowState

-- `now` is time.Now().Unix(); the row is `none` where it was not found.
unfoldable pub cas_classify : ℕ → Option ValueMessage → CasRowState × ℕ
unfolding effective_row_version
cas_classify now none = (cas_absent, 0)
cas_classify now (some vm) =
    if eqb_ℤ vm.expiry tombstone_expiry
    then (if vm.version == 0 then (cas_absent, 0) else (cas_fenced, vm.version))
    else if ltb_ℤ (pos 0) vm.expiry && leb_ℤ vm.expiry (pos now)
    then (cas_absent, 0)
    else (cas_live, effective_row_version (some vm))

unfoldable pub cas_admits : CasRowState → ℕ → ℕ → Bool
cas_admits cas_live cur expected = cur == expected
cas_admits cas_fenced cur expected = (expected == 0) || leb cur expected
cas_admits cas_absent cur expected = true

unfoldable pub current_version_of : ℕ → Option ValueMessage → ℕ
unfolding cas_classify
current_version_of now row = (cas_classify now row).1

-- What a point read gives: `none` is an error, `some none` no row.
abbrev pub Read : Type 0
Read = Option (Option ValueMessage)

-- `slice` is RocksDB's answer, read the same way.
unfoldable pub read_row_for_cas : Codec → Option (Option Bytes) → Read
read_row_for_cas c none = none
read_row_for_cas c (some none) = some none
read_row_for_cas c (some (some b)) = elim (c.unmarshal b) [ none ↦ none | some vm ↦ some (some vm) ]

-- The first of the attempts from `i` on that does not fail, `n` of them at most.
unfoldable pub first_read : ℕ → ℕ → (ℕ → Read) → Read
first_read zero i reads = none
first_read (suc n) i reads =
    let rest = first_read n (i + 1) reads in elim (reads i) [ none ↦ rest | some row ↦ some row ]

unfoldable pub read_row_for_cas_retry : (ℕ → Read) → Read
unfolding first_read
read_row_for_cas_retry reads = first_read 4 0 reads

-- The row that a migration leaves to translate: expired, and no tombstone.
unfoldable pub is_expired_live : CasRowState → Option ValueMessage → Bool
is_expired_live cas_absent (some prev) = not (eqb_ℤ prev.expiry tombstone_expiry)
is_expired_live cas_absent none = false
is_expired_live cas_fenced row = false
is_expired_live cas_live row = false

-- The version that the operand is given: that of an expired row, or the caller's.
unfoldable pub operand_expected : CasRowState → Option ValueMessage → ℕ → ℕ
unfolding is_expired_live effective_row_version
operand_expected state prev expected =
    if is_expired_live state prev then effective_row_version prev else expected
