-- ===== src/Clean/Expire.antt =====
-- storage/cleaner.go: cleanupExpiredKeys. The iterator walks a snapshot, so the rows that it shows come as
-- a list, each with what the world answers at that step; other clients change the store between steps, also
-- between the re-reads of a batch and its write. int64 sums are taken without overflow, and the deletion queue takes every file.
use ocache.Base.{
  Bool, Bytes, List, Option, [], false, if◌then◌else◌, is_empty, leb, length, ltb, none, not, some,
  true, ℕ, ◌&&◌, ◌++◌, ◌+◌, ◌==◌, ◌||◌, ◌∷◌,
}
use ocache.Base.Int.{eqb_ℤ, leb_ℤ, ltb_ℤ, pos, ℤ, ◌+ℤ◌, ◌-ℤ◌}
use ocache.Base.Assoc.{lookup, remove}
use ocache.Cas.Io.{EvictionPolicy}
use ocache.Merge.Row.{ValueMessage, is_raw_file, is_segment, tombstone_expiry}
use ocache.Merge.Codec.{Codec}
use ocache.Segment.Format.{to_int64}
use ocache.Wire.Proto.{Protowire}
use ocache.Store.State.{IndexChange, Store, change_index, stage_eviction_index_deletes}
use ocache.Clean.Strip.{expiry_of_row, unmarshal_value_message_skipping_data, version_of_row}

-- A flush: what others did to the store before it, before the re-read of each candidate, and between the
-- last re-read and the write; which re-reads RocksDB answers, whether the reads of the eviction index
-- succeed, and whether the batch is written.
pub record FlushIo : Type 0 where
  pub others : Store → Store
  pub before_read : Bytes → Store → Store
  pub before_write : Store → Store
  pub row_reads : Bytes → Bool
  pub index_reads : Bool
  pub written : Bool

-- A row of the snapshot: whether the cleaner was closed before it, or before the flush behind it; what
-- others did to the store by then; the clock in nanoseconds, for the age of a fence.
pub record SnapshotRow : Type 0 where
  pub closed : Bool
  pub others : Store → Store
  pub key : Bytes
  pub value : Bytes
  pub index_reads : Bool
  pub clock : ℕ
  pub closed_before_write : Bool
  pub flush_io : FlushIo

pub record ExpiryCandidate : Type 0 where
  pub key : Bytes
  pub expiry : ℤ
  pub version : ℕ

-- The batch is held in parts: the rows to delete, the index rows, and the merges into the delete index.
pub record Sweep : Type 0 where
  pub candidates : List ExpiryCandidate
  pub rows_batch : List Bytes
  pub changes : List IndexChange
  pub batch_credits : List (Bytes × ℤ)
  pub pending_cleaned : ℕ
  pub pending_bytes : ℤ
  pub pending_files : List ValueMessage
  pub committed_cleaned : ℕ
  pub committed_bytes : ℤ
  pub store : Store

abbrev pub expiry_flush_batch : ℕ
expiry_flush_batch = 100

abbrev pub new_sweep : Store → Sweep
new_sweep s = record {
  candidates = [];
  rows_batch = [];
  changes = [];
  batch_credits = [];
  pending_cleaned = 0;
  pending_bytes = pos 0;
  pending_files = [];
  committed_cleaned = 0;
  committed_bytes = pos 0;
  store = s;
}

abbrev pub batch_count : Sweep → ℕ
batch_count p = length p.rows_batch + length p.changes + length p.batch_credits

-- storage/storage.go: stageFileDeletion.
unfoldable pub stage_file_deletion : ValueMessage → Store → Store
stage_file_deletion vm s =
    if is_raw_file vm.value_type
    then record s { queued = s.queued ++ vm.raw_file_path ∷ [] }
    else if is_segment vm.value_type && not (is_empty vm.segment_path)
    then record s { credits = s.credits ++ (vm.segment_path, vm.value_length) ∷ [] }
    else s

abbrev pub stage_all : List ValueMessage → Store → Store
stage_all [] s = s
stage_all (vm ∷ vms) s = stage_all vms (stage_file_deletion vm s)

abbrev pub remove_all : List Bytes → List (Bytes × Bytes) → List (Bytes × Bytes)
remove_all [] m = m
remove_all (k ∷ ks) m = remove_all ks (remove k m)

-- UpdateSize(-bytes), which is called for a positive number only.
unfoldable pub lower_size : ℤ → ℤ → ℤ
lower_size bytes total = if ltb_ℤ (pos 0) bytes then total -ℤ bytes else total

module _ (pw : Protowire) (codec : Codec) (policy : EvictionPolicy) where
  unfoldable pub stage_delete : Bool → Bytes → Sweep → Sweep
  stage_delete reads key p = record p {
    rows_batch = p.rows_batch ++ key ∷ [];
    changes = p.changes ++ stage_eviction_index_deletes policy reads key p.store;
    pending_cleaned = p.pending_cleaned + 1;
  }

  -- The dead bytes of a segment's value ride in the batch; any other value waits for the commit.
  unfoldable pub reclaim_value : Option ValueMessage → Sweep → Sweep
  reclaim_value none p = p
  reclaim_value (some vm) p =
      if is_segment vm.value_type && not (is_empty vm.segment_path)
      then record p {
        pending_bytes = p.pending_bytes +ℤ vm.value_length;
        batch_credits = p.batch_credits ++ (vm.segment_path, vm.value_length) ∷ [];
      }
      else record p {
        pending_bytes = p.pending_bytes +ℤ vm.value_length;
        pending_files = p.pending_files ++ vm ∷ [];
      }

  -- The row as the re-read finds it, with its expiry where that can be read.
  unfoldable pub recheck_row : FlushIo → ExpiryCandidate → Bytes → Option ℤ → Sweep → Sweep
  unfolding stage_delete reclaim_value
  recheck_row io c b none p = stage_delete io.index_reads c.key p
  recheck_row io c b (some e) p =
      if not (eqb_ℤ e c.expiry)
      then p
      else if eqb_ℤ c.expiry tombstone_expiry && not (version_of_row pw b == c.version)
      then p
      else reclaim_value (unmarshal_value_message_skipping_data pw codec b)
          (stage_delete io.index_reads c.key p)

  unfoldable pub recheck_found : FlushIo → ExpiryCandidate → Option Bytes → Sweep → Sweep
  unfolding recheck_row
  recheck_found io c none p = p
  recheck_found io c (some b) p = recheck_row io c b (expiry_of_row pw b) p

  unfoldable pub reread : FlushIo → ExpiryCandidate → Sweep → Sweep
  unfolding recheck_found
  reread io c p = if io.row_reads c.key then recheck_found io c (lookup c.key p.store.rows) p else p

  unfoldable pub recheck : FlushIo → ExpiryCandidate → Sweep → Sweep
  unfolding reread
  recheck io c p = reread io c (record p { store = io.before_read c.key p.store })

  unfoldable pub recheck_all : FlushIo → List ExpiryCandidate → Sweep → Sweep
  unfolding recheck
  recheck_all io [] p = p
  recheck_all io (c ∷ cs) p = recheck_all io cs (recheck io c p)

  -- The batch in the store, then what waited for it.
  unfoldable pub commit_batch : Sweep → Store
  commit_batch p = stage_all p.pending_files (record p.store {
    rows = remove_all p.rows_batch p.store.rows;
    index = change_index p.changes p.store.index;
    credits = p.store.credits ++ p.batch_credits;
    total_size = lower_size p.pending_bytes p.store.total_size;
  })

  abbrev pub cleared : Sweep → Sweep
  cleared p = record p {
    rows_batch = [];
    changes = [];
    batch_credits = [];
    pending_cleaned = 0;
    pending_bytes = pos 0;
    pending_files = [];
  }

  unfoldable pub write_staged : Bool → Sweep → Sweep
  unfolding commit_batch
  write_staged written p =
      if batch_count p == 0
      then p
      else if written
      then record (cleared p) {
        committed_cleaned = p.committed_cleaned + p.pending_cleaned;
        committed_bytes = p.committed_bytes +ℤ p.pending_bytes;
        store = commit_batch p;
      }
      else cleared p

  unfoldable pub flush_expired : FlushIo → Sweep → Sweep
  unfolding recheck_all write_staged
  flush_expired io p =
      let checked : Sweep = recheck_all io p.candidates (record p { store = io.others p.store }) in
      write_staged io.written
        (record checked { candidates = []; store = io.before_write checked.store })

  module _ (fence_retention : ℤ) (now : ℕ) where
    -- A tombstone with a stamp that is younger than the horizon.
    unfoldable pub is_fence : ℕ → ℤ → ℕ → Bool
    is_fence clock expiry version =
        eqb_ℤ expiry tombstone_expiry
        && (not (version == 0) && ltb_ℤ (pos clock -ℤ to_int64 version) fence_retention)

    abbrev pub is_due : ℤ → Bool
    is_due expiry = ltb_ℤ (pos 0) expiry && leb_ℤ expiry (pos now)

    -- The version is read for a tombstone only.
    abbrev pub stamp_of : ℤ → Bytes → ℕ
    stamp_of expiry b = if eqb_ℤ expiry tombstone_expiry then version_of_row pw b else 0

    unfoldable pub note_candidate : SnapshotRow → ℤ → Sweep → Sweep
    unfolding is_fence
    note_candidate l expiry p =
        if is_due expiry
        then if is_fence l.clock expiry (stamp_of expiry l.value) then p else record p {
          candidates =
              p.candidates
              ++ (record { key = l.key; expiry = expiry; version = stamp_of expiry l.value }) ∷ [];
        }
        else p

    -- The test behind a valid row; `none` is the return on shutdown.
    unfoldable pub flush_full : SnapshotRow → Sweep → Bool × Sweep
    unfolding flush_expired
    flush_full l p =
        if leb 1000 (batch_count p) || leb expiry_flush_batch (length p.candidates)
        then if l.closed_before_write then (false, p) else (true, flush_expired l.flush_io p)
        else (true, p)

    unfoldable pub visit_row : SnapshotRow → Option ℤ → Sweep → Bool × Sweep
    unfolding stage_delete note_candidate flush_full
    visit_row l none p = (true, stage_delete l.index_reads l.key p)
    visit_row l (some expiry) p = flush_full l (note_candidate l expiry p)

    -- The loop; false where the cleaner was closed.
    unfoldable pub scan_snapshot : List SnapshotRow → Sweep → Bool × Sweep
    unfolding visit_row
    scan_snapshot [] p = (true, p)
    scan_snapshot (l ∷ ls) p =
        let (goes_on, q) =
          visit_row l (expiry_of_row pw l.value) (record p { store = l.others p.store }) in
        let rest = scan_snapshot ls q in
        if l.closed then (false, p) else if goes_on then rest else (false, q)

    unfoldable pub flush_final : FlushIo → Bool × Sweep → Bool × Sweep
    unfolding flush_expired
    flush_final io (false, p) = (false, p)
    flush_final io (true, p) =
        if ltb 0 (batch_count p) || ltb 0 (length p.candidates)
        then (true, flush_expired io p)
        else (true, p)

    -- What is added to the number of cleaned keys, and the store that is left.
    unfoldable pub cleanup_expired_keys : List SnapshotRow → FlushIo → Store → ℕ × Store
    unfolding scan_snapshot flush_final
    cleanup_expired_keys looks io s =
        let (finished, p) = flush_final io (scan_snapshot looks (new_sweep s)) in
        (if finished then p.committed_cleaned else 0, p.store)
