-- ===== src/Tests/Cas.antt =====
-- The conditional operations at concrete inputs.
use mathlib.Core.Option.{some-injective}
use ocache.Base.{
  Option, [], arith, bytes_eq, bytes_eq_iff, codes, false, inr, none, refl, some, subst, true, ℕ,
  ◌∷◌, ◌≡◌, ◌≢◌,
}
use ocache.Base.Int.{pos}
use ocache.Merge.Row.{ValueMessage, cas_delete, cas_put, raw_file, zero_message}
use ocache.Merge.Operator.{apply_delete, apply_put, resolve, tombstone}
use ocache.Cas.State.{cas_classify, read_row_for_cas_retry}
use ocache.Cas.Io.{Settings, lru, mismatch}
use ocache.Cas.Put.{PutIo, commit_put, settle_put, written}
use ocache.Cas.Agree.{send}
use ocache.Cas.Alone.{admitted, placed}
use ocache.Cas.Get.{absence_token, absent_with, answer, get_with_version, nothing, opened}
use ocache.Cas.Echo.{get_with_version-admitted, handed_out}
use ocache.Cas.Delete.{DeleteIo, delete_operand}
use ocache.Cas.Overtaken.{settle_put-overtaken}
use ocache.Cas.Spill.{Elsewhere, Fate, commit_put-Fate}

abbrev settings : Settings
settings = record {
  inline_threshold = 2;
  compact_threshold = pos 1000;
  default_ttl = 0;
  max_disk_usage = 5000;
  eviction_policy = lru;
}

-- A live raw file of version 40.
abbrev stored : Option ValueMessage
stored =
    some
      (record zero_message { value_type = raw_file; raw_file_path = codes "raw/1"; version = 40 })

abbrev quiet : PutIo
quiet = record {
  first_read = some stored;
  first_now = 9;
  body = codes "hello";
  body_failed = false;
  write_now = 9;
  stamp = some 60;
  spill = written (codes "raw/2") 77 (pos 5);
  second_read = some stored;
  second_now = 9;
  marshalled = true;
  merged = true;
  readback = λ _. none;
  readback_now = 9;
}

abbrev io : PutIo
io = record quiet {
  readback = λ _. some (apply_put stored (send 9 stored 40 (placed settings quiet 0 40 60)));
}

raw_paths_differ : codes "raw/1" ≢ codes "raw/2"
unfolding bytes_eq
raw_paths_differ same =
    let h : false ≡ true = (bytes_eq_iff (codes "raw/1") (codes "raw/2")).1 same in cc

elsewhere : (row : Option ValueMessage) → some stored ≡ some row → Elsewhere (codes "raw/2") row
elsewhere row e = subst (Elsewhere (codes "raw/2")) (some-injective stored row e) raw_paths_differ

commit_put-Fate_example :
    Fate quiet 60
      (codes "raw/2")
      (commit_put settings quiet 40 60 (placed settings quiet 0 40 60) (some (codes "raw/2")))
commit_put-Fate_example =
    commit_put-Fate settings quiet 40 60 (placed settings quiet 0 40 60) (codes "raw/2") elsewhere

opened-ne-nothing : opened [] ≢ nothing
opened-ne-nothing e = cc

token :
    handed_out (get_with_version true (some (some (tombstone 50))) 9 none (opened [])).0 ≡ some 50
unfolding get_with_version cas_classify answer absence_token absent_with tombstone
token = refl

-- The token of a fence of stamp 50 lets a put on that fence through.
get_with_version-admitted_example : admitted 9 (some (tombstone 50)) 50 ≡ true
get_with_version-admitted_example =
    get_with_version-admitted true (some (tombstone 50)) 9 none (opened []) 50 opened-ne-nothing
      token

-- Two puts expect version 40 of the stored row; that of stamp 61 is merged before that of stamp 60, and a
-- delete before the read-back.
abbrev put_of : ℕ → ValueMessage
put_of stamp = record zero_message { version = stamp; op_type = cas_put; cas_expected_version = 40 }

abbrev delete_of : ValueMessage
delete_of = record zero_message { version = 65; op_type = cas_delete; cas_expected_version = 61 }

abbrev won : ValueMessage
won = record zero_message { version = 61 }

abbrev overtaken : PutIo
overtaken = record quiet { readback = λ _. some (resolve (some won) (put_of 60 ∷ delete_of ∷ [])) }

settle_put-overtaken_example :
    (v : ℕ) × ((settle_put settings overtaken 60 (put_of 60) none stored).result ≡ mismatch v)
unfolding read_row_for_cas_retry
settle_put-overtaken_example =
    settle_put-overtaken settings overtaken 40 60 won (put_of 60) none stored [] (delete_of ∷ [])
      (omega arith) (omega arith, λ e. omega arith) tt refl refl
      ((inr refl, (omega arith, λ e. omega arith)), tt) refl

abbrev quiet_delete : DeleteIo
quiet_delete = record {
  row_read = some stored;
  now = 9;
  stamp = some 70;
  marshalled = true;
  merged = true;
  readback = λ _. some (apply_delete stored (send 9 stored 40 (delete_operand 70 40)));
  readback_now = 9;
}
