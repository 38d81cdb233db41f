-- ===== src/Clean/Reconcile.antt =====
-- storage/cleaner.go: reconcileFromMetadata. Both iterators stand on one snapshot: the metadata rows and the
-- suffixes of the back-reference rows come as lists, in the order of the keys. Other clients move the
-- tracked total and change the index rows between steps. int64 sums are taken without overflow.
use ocache.Base.{
  Bool, Bytes, List, Option, [], codes, false, if◌then◌else◌, is_empty, leb, length, ltb, none, not,
  some, true, ℕ, ◌&&◌, ◌++◌, ◌+◌, ◌==◌, ◌||◌, ◌∷◌,
}
use ocache.Base.Int.{pos, ℤ, ◌+ℤ◌, ◌-ℤ◌}
use ocache.Base.Assoc.{insert}
use ocache.Cas.Io.{EvictionPolicy, fifo, lru}
use ocache.Keys.Format.{
  make_bucketed_access_index_key, make_bucketed_access_key, make_fifo_index_key,
}
use ocache.Segment.Format.{to_int64}
use ocache.Wire.Proto.{Protowire}
use ocache.Wire.Extract.{SizeAndRawPath, value_message_size_and_raw_path}
use ocache.Store.State.{IndexChange, Store, change_index, set_index, write_fifo_index_entry}
use ocache.Clean.Strip.{ended}
use ocache.Clean.Backrefs.{advance_backref_to}

-- A metadata row of the snapshot: whether the cleaner was closed before it, what others did by then,
-- whether the read of the live back-reference succeeds, and whether a flush there is written.
pub record MetadataRow : Type 0 where
  pub closed : Bool
  pub moved : ℤ
  pub changed : List IndexChange
  pub key : Bytes
  pub value : Bytes
  pub index_reads : Bool
  pub written : Bool

-- `refs` is what the iterator of the back-references has left, `batch` the backfill batch.
pub record Recon : Type 0 where
  pub total_size : ℤ
  pub referenced : List (Bytes × ℤ)
  pub refs : List Bytes
  pub backref_broken : Bool
  pub batch : List IndexChange
  pub backfilled : ℕ
  pub write_errs : ℕ
  pub store : Store

-- filepath.Base: without the slashes at the end, what stands behind the last one.
abbrev trim_slashes : Bytes → Bytes
trim_slashes [] = []
trim_slashes (c ∷ s) =
    let rest = trim_slashes s in if (c == b'/') && is_empty rest then [] else c ∷ rest

abbrev has_slash : Bytes → Bool
has_slash [] = false
has_slash (c ∷ s) = (c == b'/') || has_slash s

abbrev last_part : Bytes → Bytes
last_part [] = []
last_part (c ∷ s) =
    let rest = last_part s in if has_slash s then rest else if c == b'/' then s else c ∷ s

unfoldable pub base : Bytes → Bytes
base path =
    let trimmed : Bytes = trim_slashes path in
    if is_empty path then codes "." else if is_empty trimmed then codes "/" else last_part trimmed

abbrev pub apply_others : MetadataRow → Recon → Recon
apply_others l r = record r {
  store = record r.store {
    total_size = r.store.total_size +ℤ l.moved;
    index = change_index l.changed r.store.index;
  };
}

-- What stays the same during a run: the wire format, the hours' names, the policy, the clock, whether there is
-- a disk limit, whether the orphan sweep is due, and whether the iterator of the back-references ends in an
-- error.
pub record Reconciling : Type 0 where
  pub pw : Protowire
  pub format_hour : ℕ → Bytes
  pub policy : EvictionPolicy
  pub now : ℕ
  pub backfill : Bool
  pub sweep_due : Bool
  pub refs_failed : Bool

-- The entry of the eviction index that a backfill writes.
abbrev pub entry_at : (ℕ → Bytes) → ℕ → EvictionPolicy → Bytes → Bytes
entry_at format_hour now fifo key = make_fifo_index_key key now
entry_at format_hour now lru key = make_bucketed_access_key format_hour key now

unfoldable pub stage_backfill_entry :
    (ℕ → Bytes) → ℕ → EvictionPolicy → Bool → Bytes → Store → List IndexChange
unfolding write_fifo_index_entry
stage_backfill_entry format_hour now fifo reads key s = write_fifo_index_entry reads key now s
stage_backfill_entry format_hour now lru reads key s =
    set_index (make_bucketed_access_key format_hour key now) []
    ∷ set_index (make_bucketed_access_index_key key) (make_bucketed_access_key format_hour key now)
    ∷ []

unfoldable pub flush_backfill : Bool → Recon → Recon
flush_backfill written r =
    let cleared : Recon = record r { batch = [] } in
    if is_empty r.batch
    then r
    else if written
    then record cleared { store = record r.store { index = change_index r.batch r.store.index } }
    else record cleared { write_errs = r.write_errs + 1 }

unfoldable pub add_reference : Bool → SizeAndRawPath → List (Bytes × ℤ) → List (Bytes × ℤ)
add_reference sweep_due f m =
    if sweep_due && not (is_empty f.raw_path)
    then insert (base f.raw_path) (to_int64 f.value_length) m
    else m

module _ (u : Reconciling) where
  abbrev pub fresh_entry : Bytes → Bytes
  fresh_entry key = entry_at u.format_hour u.now u.policy key

  unfoldable pub count_row : Option SizeAndRawPath → Recon → Recon
  unfolding add_reference
  count_row none r = r
  count_row (some f) r = record r {
    total_size = r.total_size +ℤ to_int64 f.value_length;
    referenced = add_reference u.sweep_due f r.referenced;
  }

  -- The answer of the merge: an error, a key with a back-reference, or one without.
  unfoldable pub settle_coverage : MetadataRow → List Bytes × Option Bool → Recon → Recon
  unfolding flush_backfill stage_backfill_entry
  settle_coverage l (refs, none) r = record r { refs = refs; backref_broken = true }
  settle_coverage l (refs, some true) r = record r { refs = refs }
  settle_coverage l (refs, some false) r =
      let staged : Recon = record r {
        refs = refs;
        batch =
            r.batch
            ++ stage_backfill_entry u.format_hour u.now u.policy l.index_reads l.key r.store;
        backfilled = r.backfilled + 1;
      } in
      if leb 1000 (length staged.batch) then flush_backfill l.written staged else staged

  unfoldable pub cover_row : MetadataRow → Recon → Recon
  unfolding settle_coverage advance_backref_to
  cover_row l r =
      if u.backfill && not r.backref_broken
      then settle_coverage l (advance_backref_to u.refs_failed l.key r.refs) r
      else r

  unfoldable pub visit_metadata_row : MetadataRow → Recon → Recon
  unfolding cover_row count_row
  visit_metadata_row l r =
      cover_row l (count_row (ended (value_message_size_and_raw_path u.pw l.value)) r)

  -- The loop; false where the cleaner was closed, behind a last flush.
  unfoldable pub scan_metadata : List MetadataRow → Recon → Bool × Recon
  unfolding visit_metadata_row flush_backfill
  scan_metadata [] r = (true, r)
  scan_metadata (l ∷ ls) r =
      let seen : Recon = apply_others l r in
      let rest = scan_metadata ls (visit_metadata_row l seen) in
      if l.closed then (false, flush_backfill l.written seen) else rest

  -- Whether a pass leaves keys that the next tick has to look at again.
  abbrev pub incomplete : Recon → Bool
  incomplete r = ltb 0 r.write_errs || (r.backref_broken || (u.refs_failed && is_empty r.refs))

  -- The store, the flag backfillPending, and the references for the orphan sweep where it is to run.
  -- `scan_failed` is the error of the metadata iterator.
  unfoldable pub finish :
      Bool → ℤ → Bool → Bool → Bool × Recon → Store × (Bool × Option (List (Bytes × ℤ)))
  unfolding flush_backfill
  finish scan_failed tracked pending written (false, r) = (r.store, (pending, none))
  finish scan_failed tracked pending written (true, r) =
      let q : Recon = flush_backfill written r in
      if scan_failed then (q.store, (u.backfill || pending, none)) else (
        record q.store { total_size = q.store.total_size +ℤ (q.total_size -ℤ tracked) },
        (
          if u.backfill then incomplete q else pending,
          if u.sweep_due then some q.referenced else none,
        ),
      )

  abbrev pub new_recon : List Bytes → Store → Recon
  new_recon refs s = record {
    total_size = pos 0;
    referenced = [];
    refs = refs;
    backref_broken = false;
    batch = [];
    backfilled = 0;
    write_errs = 0;
    store = s;
  }

  unfoldable pub reconcile_from_metadata :
      List MetadataRow
      → List Bytes
      → Bool
      → Bool
      → Bool
      → Store
      → Store × (Bool × Option (List (Bytes × ℤ)))
  unfolding finish scan_metadata
  reconcile_from_metadata looks refs scan_failed written pending s =
      finish scan_failed s.total_size pending written (scan_metadata looks (new_recon refs s))
