-- ===== src/Cas/Alone.antt =====
-- storage/cas.go: what a conditional operation does when nothing interferes and nothing fails.
use ocache.Base.{
  Bool, Bytes, List, Option, [], arith, false, if◌then◌else◌, leb, length, some, true, ℕ, ◌∷◌, ◌≡◌,
  ◌⊎◌,
}
use ocache.Base.Int.{ℤ}
use ocache.Merge.Row.{ValueMessage}
use ocache.Merge.Operator.{apply_put}
use ocache.Cas.State.{Read, cas_admits, cas_classify, read_row_for_cas_retry}
use ocache.Cas.Io.{
  Effect, Settings, credit_segment, drop_eviction, hold_raw, index_compaction, index_eviction,
  merge_row, release_raw, stage_raw, update_size,
}
use ocache.Cas.Put.{
  PutIo, gone_or_denied, inline_put, no_space, put_expiry, put_operand, raw_put, spill_failed,
  written,
}
use ocache.Cas.Agree.{send}

abbrev pub admitted : ℕ → Option ValueMessage → ℕ → Bool
admitted now row expected = cas_admits (cas_classify now row).0 (cas_classify now row).1 expected

-- The operand of a put, before the version that it is sent with.
abbrev pub placed : Settings → PutIo → ℕ → ℕ → ℕ → ValueMessage
placed cfg io ttl expected stamp =
    let op : ValueMessage = put_operand (put_expiry cfg io.write_now ttl) stamp expected in
    if leb (length io.body) cfg.inline_threshold then inline_put op io.body else elim io.spill [
      | written path checksum n ↦ raw_put op path checksum n
      | no_space ↦ op
      | gone_or_denied ↦ op
      | spill_failed ↦ op
    ]

-- Every step of the call goes through, and both looks at the row and the merge see `row`.
pub record Alone (cfg : Settings) (io : PutIo) (row : Option ValueMessage) (ttl expected stamp : ℕ)
    : Type 0 where
  pub first : io.first_read ≡ some row
  pub second : io.second_read ≡ some row
  pub one_second : io.second_now ≡ io.first_now
  pub body_ok : io.body_failed ≡ false
  pub stamped : io.stamp ≡ some stamp
  pub fits :
      (leb (length io.body) cfg.inline_threshold ≡ true)
      ⊎ ((path : Bytes) × (checksum : ℕ) × (n : ℤ) × (io.spill ≡ written path checksum n))
  pub marshals : io.marshalled ≡ true
  pub merges : io.merged ≡ true
  pub reads_back :
      io.readback 0
      ≡ some (apply_put row (send io.second_now row expected (placed cfg io ttl expected stamp)))

pub read_row_for_cas_retry-first :
    (reads : ℕ → Read) {row : Option ValueMessage}
    → reads 0 ≡ some row
    → read_row_for_cas_retry reads ≡ some row
unfolding read_row_for_cas_retry
read_row_for_cas_retry-first reads e = ground arith

-- What an operation merges into the key's row.
abbrev pub merges_of : List Effect → List ValueMessage
merges_of [] = []
merges_of (merge_row op ∷ es) = op ∷ merges_of es
merges_of (hold_raw path ∷ es) = merges_of es
merges_of (release_raw path ∷ es) = merges_of es
merges_of (stage_raw path ∷ es) = merges_of es
merges_of (credit_segment path n ∷ es) = merges_of es
merges_of (index_compaction path ∷ es) = merges_of es
merges_of (index_eviction p ∷ es) = merges_of es
merges_of (drop_eviction ∷ es) = merges_of es
merges_of (update_size n ∷ es) = merges_of es
