-- ===== src/Clean/Orphans.antt =====
-- storage/orphan_sweep.go: sweepOrphanRawFiles over the directory's entries, each with what the file system,
-- the registry of files being written, the file locks and the close channel answer at that point. The
-- deletion queue takes every file.
use ocache.Base.{
  Bool, Bytes, List, Option, [], false, if◌then◌else◌, none, not, some, true, ℕ, ◌%◌, ◌&&◌, ◌++◌,
  ◌+◌, ◌==◌, ◌∷◌,
}
use ocache.Base.Int.{ltb_ℤ, pos, ℤ, ◌+ℤ◌, ◌-ℤ◌}
use ocache.Base.Assoc.{lookup}

-- `info` is the size and the time of the last write; `none` where the file is gone by then.
pub record DirEntry : Type 0 where
  pub name : Bytes
  pub is_dir : Bool
  pub info : Option (ℤ × ℤ)
  pub in_flight : Bool
  pub lock_free : Bool
  pub closed : Bool

pub record OrphanSweep : Type 0 where
  pub physical_bytes : ℤ
  pub orphan_bytes : ℤ
  pub orphans : ℕ
  pub recent : ℕ
  pub active : ℕ
  pub present : ℕ
  pub queued : List Bytes

abbrev pub new_orphan_sweep : List Bytes → OrphanSweep
new_orphan_sweep queued = record {
  physical_bytes = pos 0;
  orphan_bytes = pos 0;
  orphans = 0;
  recent = 0;
  active = 0;
  present = 0;
  queued = queued;
}

-- filepath.Join of a clean directory and a name.
abbrev pub join : Bytes → Bytes → Bytes
join dir name = dir ++ b'/' ∷ name

module _ (files_dir : Bytes) (referenced : List (Bytes × ℤ)) (cutoff : ℤ) where
  unfoldable pub visit_unreferenced : DirEntry → Option (ℤ × ℤ) → OrphanSweep → OrphanSweep
  visit_unreferenced e none st = st
  visit_unreferenced e (some (size, mod_time)) st =
      let seen : OrphanSweep = record st { physical_bytes = st.physical_bytes +ℤ size } in
      if ltb_ℤ cutoff mod_time
      then record seen { recent = st.recent + 1 }
      else if e.in_flight
      then record seen { active = st.active + 1 }
      else if not e.lock_free
      then record seen { active = st.active + 1 }
      else record seen {
        queued = st.queued ++ join files_dir e.name ∷ [];
        orphans = st.orphans + 1;
        orphan_bytes = st.orphan_bytes +ℤ size;
      }

  unfoldable pub visit_file : DirEntry → Option ℤ → OrphanSweep → OrphanSweep
  unfolding visit_unreferenced
  visit_file e none st = visit_unreferenced e e.info st
  visit_file e (some size) st = record st {
    physical_bytes = st.physical_bytes +ℤ size;
    present = st.present + 1;
  }

  unfoldable pub visit_entry : DirEntry → OrphanSweep → OrphanSweep
  unfolding visit_file
  visit_entry e st = if e.is_dir then st else visit_file e (lookup e.name referenced) st

  -- The loop; false where the cleaner was closed, which is looked at every thousand entries.
  unfoldable pub sweep_entries : ℕ → List DirEntry → OrphanSweep → Bool × OrphanSweep
  unfolding visit_entry
  sweep_entries i [] st = (true, st)
  sweep_entries i (e ∷ es) st =
      let rest = sweep_entries (i + 1) es (visit_entry e st) in
      if (i % 1000 == 0) && e.closed then (false, st) else rest

-- Whether the sweep was completed, and what it left; a listing that fails is `none`.
unfoldable pub sweep_orphan_raw_files :
    Bytes → List (Bytes × ℤ) → ℤ → Option (List DirEntry) → List Bytes → Bool × OrphanSweep
unfolding sweep_entries
sweep_orphan_raw_files dir referenced scan_start none queued = (false, new_orphan_sweep queued)
sweep_orphan_raw_files dir referenced scan_start (some es) queued =
    sweep_entries dir referenced (scan_start -ℤ pos 600000000000) 0 es (new_orphan_sweep queued)
