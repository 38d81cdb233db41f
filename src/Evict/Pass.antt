-- ===== src/Evict/Pass.antt =====
-- storage/eviction.go: evictByIndex, with the descriptors of storage/lru.go and storage/fifo.go. What the
-- database, the clock and the close channel answer while an index entry is at hand comes with the entry.
-- int64 sums are taken without overflow.
use mathlib.Core.Option
use ocache.Base.{
  Bool, Bytes, List, Option, [], bytes_eq, if◌then◌else◌, is_empty, leb, length, none, some, ℕ,
  ◌&&◌, ◌++◌, ◌+◌, ◌∷◌,
}
use ocache.Base.Int.{leb_ℤ, ltb_ℤ, pos, ℤ, ◌+ℤ◌, ◌-ℤ◌}
use ocache.Keys.Format.{
  access_bucket_prefix, fifo_index_prefix, make_bucketed_access_index_key, make_fifo_backref_key,
  make_metadata_key, parse_bucketed_access_key, parse_fifo_index_key,
}
use ocache.Merge.Row.{ValueMessage}
use ocache.Merge.Codec.{Codec}

pub record EvictionIndex : Type 0 where
  pub prefix : Bytes
  pub parse_key : Bytes → Option Bytes
  pub backref_key : Bytes → Bytes

abbrev pub lru_eviction_index : EvictionIndex
lru_eviction_index = record {
  prefix = access_bucket_prefix;
  parse_key = λ entry. Option.map (λ r. r.0) (parse_bucketed_access_key entry);
  backref_key = make_bucketed_access_index_key;
}

abbrev pub fifo_eviction_index : EvictionIndex
fifo_eviction_index = record {
  prefix = fifo_index_prefix;
  parse_key = parse_fifo_index_key;
  backref_key = make_fifo_backref_key;
}

-- A point read: `none` is an error, `some none` no row.
abbrev pub Get : Type 0
Get = Option (Option Bytes)

pub record Look : Type 0 where
  pub closed : Bool
  pub written : Bool
  pub entry : Bytes
  pub row : Get
  pub now : ℕ
  pub backref : Get

-- A batch that was written, one whose write failed, and a call of stageFileDeletion.
pub data Act : Type 0 where
  wrote write_failed : List Bytes → Act
  staged : ValueMessage → Act

-- `batch` holds the keys to delete; `log` is what was done, the newest first.
pub record Pass : Type 0 where
  pub batch : List Bytes
  pub pending_bytes : ℤ
  pub pending_count : ℕ
  pub pending_files : List ValueMessage
  pub committed_bytes : ℤ
  pub evicted_count : ℕ
  pub log : List Act

abbrev pub new_pass : Pass
new_pass = record {
  batch = [];
  pending_bytes = pos 0;
  pending_count = 0;
  pending_files = [];
  committed_bytes = pos 0;
  evicted_count = 0;
  log = [];
}

-- The calls of stageFileDeletion on the files, in front of the log.
abbrev pub stage_files : List ValueMessage → List Act → List Act
stage_files [] log = log
stage_files (vm ∷ vms) log = stage_files vms (staged vm ∷ log)

unfoldable pub commit : Bool → Pass → Pass
commit written p =
    let cleared : Pass = record p {
      batch = [];
      pending_bytes = pos 0;
      pending_count = 0;
      pending_files = [];
    } in
    if is_empty p.batch
    then p
    else if written
    then record cleared {
      log = stage_files p.pending_files (wrote p.batch ∷ p.log);
      committed_bytes = p.committed_bytes +ℤ p.pending_bytes;
      evicted_count = p.evicted_count + p.pending_count;
    }
    else record cleared { log = write_failed p.batch ∷ p.log }

abbrev pub delete_keys : List Bytes → Pass → Pass
delete_keys ks p = record p { batch = p.batch ++ ks }

abbrev pub expired : ℤ → ℕ → Bool
expired expiry now = ltb_ℤ (pos 0) expiry && leb_ℤ expiry (pos now)

unfoldable pub evict_key : Bytes → Bytes → Bytes → ValueMessage → Pass → Pass
evict_key meta entry backref vm p = record (delete_keys (meta ∷ entry ∷ backref ∷ []) p) {
  pending_bytes = p.pending_bytes +ℤ vm.value_length;
  pending_count = p.pending_count + 1;
  pending_files = p.pending_files ++ vm ∷ [];
}

-- The entry against the key's back-reference.
unfoldable pub settle_entry : Look → Bytes → Bytes → ValueMessage → Pass → Pass
unfolding evict_key bytes_eq
settle_entry l meta backref vm p = elim l.backref [
  | none ↦ p
  | some none ↦ evict_key meta l.entry backref vm p
  | some (some cur) ↦
      if bytes_eq cur l.entry
      then evict_key meta l.entry backref vm p
      else delete_keys (l.entry ∷ []) p
]

-- The body of the loop behind its tests.
unfoldable pub visit : EvictionIndex → Codec → Look → Pass → Pass
unfolding settle_entry make_metadata_key
visit idx c l p = elim (idx.parse_key l.entry) [
  | none ↦ p
  | some key ↦
      let meta = make_metadata_key key in
      elim l.row [
        | none ↦ p
        | some none ↦ delete_keys (l.entry ∷ []) p
        | some (some b) ↦ elim (c.unmarshal b) [
          | none ↦ delete_keys (meta ∷ l.entry ∷ idx.backref_key key ∷ []) p
          | some vm ↦
              if expired vm.expiry l.now then p else settle_entry l meta (idx.backref_key key) vm p
        ]
      ]
]

-- The flush of a batch of a thousand keys.
unfoldable pub bound_batch : Bool → Pass → Pass
unfolding commit
bound_batch written p = if leb 1000 (length p.batch) then commit written p else p

-- The loop, over the entries of the index from its first one on.
unfoldable pub evict_entries : EvictionIndex → Codec → ℤ → List Look → Pass → Pass
unfolding bound_batch visit
evict_entries idx c target [] p = p
evict_entries idx c target (l ∷ ls) p =
    let q = bound_batch l.written p in
    let rest = evict_entries idx c target ls (visit idx c l q) in
    if l.closed then p else if leb_ℤ target (q.committed_bytes +ℤ q.pending_bytes) then q else rest

-- The number of keys evicted, what is added to the store's size, and the pass; `written` is for the last
-- batch.
unfoldable pub evict_by_index : EvictionIndex → Codec → ℤ → List Look → Bool → ℕ × (ℤ × Pass)
unfolding evict_entries commit
evict_by_index idx c target looks written =
    let p = commit written (evict_entries idx c target looks new_pass) in
    (p.evicted_count, (pos 0 -ℤ p.committed_bytes, p))
