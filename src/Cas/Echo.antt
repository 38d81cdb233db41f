-- ===== src/Cas/Echo.antt =====
-- storage/cas.go: a caller that hands the version of a read back to a put.
use mathlib.Core.Option.{some-injective}
use ocache.Base.{
  Bool, Bytes, Option, arith, inl, inr, none, refl, some, sym, true, ℕ, ◌≡◌, ◌≢◌, ◌⊎◌,
}
use ocache.Merge.Row.{ValueMessage, ValueType, inline, raw_file, segment, unknown_type}
use ocache.Cas.State.{CasRowState, cas_absent, cas_admits, cas_classify, cas_fenced, cas_live}
use ocache.Cas.Get.{
  GetResult, Opened, absent, absent_with, answer, found, get_failed, get_with_version, locked,
  nothing, opened, read_value, unreadable,
}
use ocache.Cas.Alone.{admitted}

-- The version that a read hands out; a failed read hands out none.
abbrev pub handed_out : GetResult → Option ℕ
handed_out (found b version) = some version
handed_out (absent token) = some token
handed_out (get_failed f) = none

read_value_cases :
    (t : ValueType) (b : Bytes) (o : Opened) (cur v : ℕ)
    → handed_out (read_value t b o cur) ≡ some v
    → (v ≡ cur) ⊎ ((v ≡ 0) × (o ≡ nothing))
unfolding read_value
read_value_cases inline b o cur v h = inl (sym (some-injective cur v h))
read_value_cases segment b (opened c) cur v h = inl (sym (some-injective cur v h))
read_value_cases segment b nothing cur v h = inr (sym (some-injective 0 v h), refl)
read_value_cases segment b locked cur v h = cc
read_value_cases segment b unreadable cur v h = cc
read_value_cases raw_file b (opened c) cur v h = inl (sym (some-injective cur v h))
read_value_cases raw_file b nothing cur v h = inr (sym (some-injective 0 v h), refl)
read_value_cases raw_file b locked cur v h = cc
read_value_cases raw_file b unreadable cur v h = cc
read_value_cases (unknown_type n) b o cur v h = cc

absent_with_cases :
    (token : Option ℕ) (v : ℕ) → handed_out (absent_with token) ≡ some v → token ≡ some v
unfolding absent_with
absent_with_cases none v h = cc
absent_with_cases (some t) v h = h

answer-admitted :
    (updater : Bool) (state : CasRowState) (cur : ℕ) (vm : ValueMessage) (fresh : Option ℕ)
    (o : Opened) (v : ℕ)
    → o ≢ nothing
    → handed_out (answer updater state cur (some vm) fresh o).0 ≡ some v
    → cas_admits state cur v ≡ true
unfolding answer cas_admits
answer-admitted updater cas_live cur vm fresh o v ok h =
    elim (read_value_cases vm.value_type vm.body o cur v h) [
      | inl e ↦ ground arith
      | inr (z, e) ↦ elim (ok e) [ ]
    ]
answer-admitted updater cas_fenced cur vm fresh o v ok h =
    let e : cur ≡ v = some-injective cur v (absent_with_cases (some cur) v h) in ground arith
answer-admitted updater cas_absent cur vm fresh o v ok h = refl

-- A version that GetWithVersion hands out, live value and absent key alike, is admitted by a put on the
-- row that was read, at the same time; unless the reader of a segment or raw file came back empty.
pub get_with_version-admitted :
    (updater : Bool) (row : Option ValueMessage) (now : ℕ) (fresh : Option ℕ) (o : Opened) (v : ℕ)
    → o ≢ nothing
    → handed_out (get_with_version updater (some row) now fresh o).0 ≡ some v
    → admitted now row v ≡ true
unfolding get_with_version cas_admits cas_classify
get_with_version-admitted updater none now fresh o v ok h = refl
get_with_version-admitted updater (some vm) now fresh o v ok h =
    answer-admitted updater (cas_classify now (some vm)).0 (cas_classify now (some vm)).1 vm fresh o
      v ok h
