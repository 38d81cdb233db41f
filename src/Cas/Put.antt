-- ===== src/Cas/Put.antt =====
-- storage/cas.go: PutIfVersion and finishWonCASPut.
use ocache.Base.{
  Bool, Bytes, List, Option, [], if◌then◌else◌, leb, length, ltb, none, not, some, ℕ, ◌&&◌, ◌++◌,
  ◌==◌, ◌∷◌,
}
use ocache.Base.Int.{leb_ℤ, ltb_ℤ, pos, ℤ, ◌-ℤ◌}
use ocache.Merge.Row.{ValueMessage, cas_put, inline, is_raw_file, raw_file, zero_message}
use ocache.Cas.Lifetime.{expiry_after}
use ocache.Cas.State.{
  Read, cas_admits, cas_classify, current_version_of, operand_expected, read_row_for_cas_retry,
}
use ocache.Cas.Io.{
  CasResult, Effect, Outcome, Settings, after, ends, failed, hold_raw, index_compaction,
  index_eviction, internal_error, io_error, io_retryable, merge_row, mismatch, reclaim,
  reclaim_replaced_value, release_raw, rocksdb_error, stage_raw, storage_full, succeeded,
  update_size,
}

-- fileManager.Write: the path, the checksum and the length written, or a kind of error.
pub data Spill : Type 0 where
  written : Bytes → ℕ → ℤ → Spill
  no_space gone_or_denied spill_failed : Spill

-- What the world answers to one call.
pub record PutIo : Type 0 where
  pub first_read : Read
  pub first_now : ℕ
  pub body : Bytes
  pub body_failed : Bool
  pub write_now : ℕ
  pub stamp : Option ℕ
  pub spill : Spill
  pub second_read : Read
  pub second_now : ℕ
  pub marshalled : Bool
  pub merged : Bool
  pub readback : ℕ → Read
  pub readback_now : ℕ

unfoldable pub is_medium : Settings → ℤ → Bool
is_medium cfg n = ltb_ℤ (pos cfg.inline_threshold) n && leb_ℤ n cfg.compact_threshold

abbrev pub stage_spill : Option Bytes → List Effect
stage_spill none = []
stage_spill (some path) = stage_raw path ∷ []

-- The value's length takes the place of the replaced one's.
unfoldable pub finish_won_cas_put : Settings → ValueMessage → Option ValueMessage → List Effect
unfolding is_medium reclaim_replaced_value
finish_won_cas_put cfg op prev =
    (if is_raw_file op.value_type && is_medium cfg op.value_length
      then index_compaction op.raw_file_path ∷ []
      else [])
    ++ ((if ltb 0 cfg.max_disk_usage then index_eviction cfg.eviction_policy ∷ [] else [])
        ++ (reclaim prev
            ++ (update_size (elim prev [
              | none ↦ op.value_length -ℤ pos 0
              | some p ↦ op.value_length -ℤ p.value_length
            ])
                ∷ [])))

-- The merge is committed and its outcome cannot be read.
unfoldable pub unreadable_put :
    Settings → ValueMessage → Option Bytes → Option ValueMessage → Outcome
unfolding is_medium reclaim_replaced_value
unreadable_put cfg op spilled prev = record {
  result = failed rocksdb_error;
  effects =
      elim spilled [
        | none ↦ []
        | some path ↦ if is_medium cfg op.value_length then index_compaction path ∷ [] else []
      ]
      ++ reclaim prev;
}

-- The read-back decides who won.
unfoldable pub settle_put :
    Settings → PutIo → ℕ → ValueMessage → Option Bytes → Option ValueMessage → Outcome
settle_put cfg io stamp op spilled prev =
    let lost : Option ValueMessage → Outcome = λ got. record {
      result = mismatch (current_version_of io.readback_now got);
      effects = stage_spill spilled;
    } in
    elim (read_row_for_cas_retry io.readback) [
      | none ↦ unreadable_put cfg op spilled prev
      | some none ↦ lost none
      | some (some got) ↦
          if got.version == stamp
          then record { result = succeeded stamp; effects = finish_won_cas_put cfg op prev }
          else lost (some got)
    ]

-- From the second look at the row to the end; `spilled` is the file that holds the value.
unfoldable pub commit_put : Settings → PutIo → ℕ → ℕ → ValueMessage → Option Bytes → Outcome
commit_put cfg io expected stamp op spilled =
    let give_up : CasResult → Outcome = λ r. record { result = r; effects = stage_spill spilled } in
    elim io.second_read [
      | none ↦ give_up (failed rocksdb_error)
      | some prev ↦
          let (state, cur) = cas_classify io.second_now prev in
          let sent : ValueMessage = record op {
            cas_expected_version = operand_expected state prev expected;
          } in
          if not (cas_admits state cur expected)
          then give_up (mismatch cur)
          else if not io.marshalled
          then give_up (failed internal_error)
          else if not io.merged
          then give_up (failed rocksdb_error)
          else after (merge_row sent ∷ []) (settle_put cfg io stamp sent spilled prev)
    ]

-- `now` is in nanoseconds.
unfoldable pub put_expiry : Settings → ℕ → ℕ → ℤ
put_expiry cfg now ttl =
    let t : ℕ = if ttl == 0 then cfg.default_ttl else ttl in
    if ltb 0 t then expiry_after now t else pos 0

abbrev pub put_operand : ℤ → ℕ → ℕ → ValueMessage
put_operand expiry stamp expected = record zero_message {
  expiry = expiry;
  version = stamp;
  op_type = cas_put;
  cas_expected_version = expected;
}

unfoldable pub inline_put : ValueMessage → Bytes → ValueMessage
inline_put op body = record op {
  value_type = inline;
  body = body;
  value_length = pos (length body);
}

unfoldable pub raw_put : ValueMessage → Bytes → ℕ → ℤ → ValueMessage
raw_put op path checksum n = record op {
  value_type = raw_file;
  raw_file_path = path;
  value_length = n;
  checksum = checksum;
}

-- The value goes into the row, or into a raw file that is kept from the orphan sweep meanwhile.
unfoldable pub place_put : Settings → PutIo → ℕ → ℕ → ValueMessage → Outcome
place_put cfg io expected stamp op =
    let in_row : Outcome = commit_put cfg io expected stamp (inline_put op io.body) none in
    if leb (length io.body) cfg.inline_threshold then in_row else elim io.spill [
      | no_space ↦ ends (failed storage_full)
      | gone_or_denied ↦ ends (failed io_retryable)
      | spill_failed ↦ ends (failed io_error)
      | written path checksum n ↦
          let o = commit_put cfg io expected stamp (raw_put op path checksum n) (some path) in
          record {
            result = o.result;
            effects = hold_raw path ∷ (o.effects ++ release_raw path ∷ []);
          }
    ]

unfoldable pub put_if_version : Settings → PutIo → ℕ → ℕ → Outcome
put_if_version cfg io ttl expected = elim io.first_read [
  | none ↦ ends (failed rocksdb_error)
  | some row ↦
      let (state, cur) = cas_classify io.first_now row in
      if not (cas_admits state cur expected)
      then ends (mismatch cur)
      else if io.body_failed
      then ends (failed io_error)
      else elim io.stamp [
        | none ↦ ends (failed internal_error)
        | some stamp ↦
            place_put cfg io expected stamp
              (put_operand (put_expiry cfg io.write_now ttl) stamp expected)
      ]
]
