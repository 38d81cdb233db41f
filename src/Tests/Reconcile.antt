-- ===== src/Tests/Reconcile.antt =====
-- The reconcile, the orphan sweep and the disk limits at concrete inputs.
use ocache.Base.{
  Bool, Bool-cases, Bytes, List, Option, [], bytes_eq, codes, false, if◌then◌else◌, inl, inr, none,
  not, refl, some, true, ℕ, ◌&&◌, ◌++◌, ◌∷◌, ◌≡◌, ◌⊎◌,
}
use ocache.Base.Int.{leb_ℤ, ltb_ℤ, pos, ℤ, ◌+ℤ◌, ◌-ℤ◌}
use ocache.Base.Assoc.{lookup}
use ocache.Cas.Io.{fifo}
use ocache.Keys.Format.{fifo_backref_prefix, make_fifo_backref_key}
use ocache.Keys.Order.{lex_lt}
use ocache.Clean.Indexed.{bytes_eq-append}
use ocache.Clean.Orphans.{DirEntry, OrphanSweep, join, sweep_orphan_raw_files}
use ocache.Clean.Owned.{is_orphan, orphan_paths, sweep_orphan_raw_files-queued}
use ocache.Clean.Referenced.{NotQueued, sweep_behind, sweep_behind-NotQueued}
use ocache.Clean.Limits.{
  effective_reserve, quot, reserve_evict_slice_fraction, reserve_need, reserve_volume_fraction,
}
use ocache.Clean.Bounds.{reserve_need-bounds}
use ocache.Clean.Backfilled.{reconcile_from_metadata-keeps}
use ocache.Wire.Extract.{
  iterate, read_path, read_tag, read_varint, scan, size_and_raw_path_field, skip_field,
  value_message_size_and_raw_path,
}
use ocache.Tests.Wire.{row, short_wire}
use ocache.Store.State.{Store, backref_of}
use ocache.Clean.Reconcile.{MetadataRow, Reconciling, base, reconcile_from_metadata}
use ocache.Clean.Backrefs.{member}
use ocache.Clean.Sized.{all_open, lengths, moved_by, reconcile_from_metadata-total_size}

abbrev hours : ℕ → Bytes
hours t = codes "2026010100"

abbrev run : Reconciling
run = record {
  pw = short_wire;
  format_hour = hours;
  policy = fifo;
  now = 7;
  backfill = true;
  sweep_due = true;
  refs_failed = false;
}

abbrev look : Bytes → ℤ → MetadataRow
look key moved = record {
  closed = false;
  moved = moved;
  changed = [];
  key = key;
  value = row;
  index_reads = true;
  written = true;
}

-- "b" has a back-reference, "a" has none.
abbrev looks : List MetadataRow
looks = look (codes "a") (pos 3) ∷ look (codes "b") (pos 4) ∷ []

abbrev refs : List Bytes
refs = codes "b" ∷ []

abbrev store : Store
store = record {
  rows = [];
  index = (codes "!fifo_ref/b", codes "e") ∷ [];
  credits = [];
  queued = [];
  total_size = pos 1000;
}

reconcile_from_metadata-total_size_example :
    (reconcile_from_metadata run looks refs false true false store).0.total_size ≡ (
      if all_open looks && not false
      then lengths short_wire looks +ℤ moved_by looks
      else store.total_size +ℤ moved_by looks)
reconcile_from_metadata-total_size_example =
    reconcile_from_metadata-total_size run looks refs false true false store

indexed :
    (k : Bytes) → member k (refs ++ []) ≡ false → lookup (backref_of fifo k) store.index ≡ none
unfolding lookup make_fifo_backref_key
indexed k h =
    rw (bytes_eq-append fifo_backref_prefix k (codes "b"))
      (elim (Bool-cases (bytes_eq k (codes "b"))) [
        | inl same ↦ absurd ((let no = rw same at h in cc))
        | inr other ↦ rw other refl
      ])

-- The key "b" keeps the entry that its back-reference names.
reconcile_from_metadata-keeps_example :
    lookup
      (backref_of fifo (codes "b"))
      (reconcile_from_metadata run looks refs false true false store).0.index
    ≡ lookup (backref_of fifo (codes "b")) store.index
unfolding lex_lt bytes_eq
reconcile_from_metadata-keeps_example =
    reconcile_from_metadata-keeps run refl refs [] (λ h. refl) store indexed (codes "b") looks
      ((refl, tt), (tt, tt)) (tt, tt) (refl, (refl, tt)) false true false refl

-- The row of the snapshot names "r/1"; the listing has that file and an old orphan.
abbrev file : Bytes → DirEntry
file name = record {
  name = name;
  is_dir = false;
  info = some (pos 10, pos 0);
  in_flight = false;
  lock_free = true;
  closed = false;
}

abbrev behind : Option (Bool × OrphanSweep)
behind =
    sweep_behind (codes "d/files") (pos 900000000000)
      (some (file (codes "1") ∷ file (codes "2") ∷ [])) []
      (reconcile_from_metadata run looks refs false true false store).1.1

sweep_behind-NotQueued_example :
    NotQueued (join (codes "d/files") (base (codes "r/1"))) behind
    × ((all_open looks && true) ≡ false → behind ≡ none)
unfolding value_message_size_and_raw_path scan iterate read_tag size_and_raw_path_field read_varint
    read_path skip_field
sweep_behind-NotQueued_example =
    sweep_behind-NotQueued run refl (codes "r/1") refl looks refs false true false store
      (codes "d/files") (pos 900000000000) (some (file (codes "1") ∷ file (codes "2") ∷ [])) []
      (inl (record { value_length = 9; raw_path = codes "r/1" }, refl, refl)) tt

sweep_orphan_raw_files-queued_example :
    ((sweep_orphan_raw_files
        (codes "d/files")
        ((codes "1", pos 9) ∷ [])
        (pos 900000000000)
        (some (file (codes "1") ∷ file (codes "2") ∷ []))
        []).0
      ≡ true)
    × ((sweep_orphan_raw_files
          (codes "d/files")
          ((codes "1", pos 9) ∷ [])
          (pos 900000000000)
          (some (file (codes "1") ∷ file (codes "2") ∷ []))
          []).1.queued
        ≡ []
          ++ orphan_paths
              (codes "d/files")
              ((codes "1", pos 9) ∷ [])
              (pos 900000000000 -ℤ pos 600000000000)
              (file (codes "1") ∷ file (codes "2") ∷ []))
    × ((sweep_orphan_raw_files
          (codes "d/files")
          ((codes "1", pos 9) ∷ [])
          (pos 900000000000)
          none
          []).1.queued
        ≡ [])
sweep_orphan_raw_files-queued_example =
    sweep_orphan_raw_files-queued (codes "d/files") ((codes "1", pos 9) ∷ []) (pos 900000000000)
      (file (codes "1") ∷ file (codes "2") ∷ []) [] (refl, (refl, tt))

-- The orphan, and nothing else.
swept :
    orphan_paths
      (codes "d/files")
      ((codes "1", pos 9) ∷ [])
      (pos 300000000000)
      (file (codes "1") ∷ file (codes "2") ∷ [])
    ≡ codes "d/files/2" ∷ []
unfolding orphan_paths is_orphan lookup bytes_eq
swept = refl

-- A volume of 1000 bytes with 40 free and a quarter of the store left to evict.
reserve_need-bounds_example :
    (let reserve = effective_reserve (pos 500) (pos 1000) in
      (ltb_ℤ (pos 40) reserve ≡ true)
      × (leb_ℤ reserve (pos 500) ≡ true)
      × ((leb_ℤ (pos 1000) (pos 0) ≡ true)
          ⊎ (leb_ℤ reserve (quot (pos 1000) reserve_volume_fraction) ≡ true))
      × (ltb_ℤ (pos 0) (pos 50) ≡ true)
      × (leb_ℤ (pos 50) (reserve -ℤ pos 40) ≡ true)
      × ((leb_ℤ (quot (pos 200) reserve_evict_slice_fraction) (pos 0) ≡ true)
          ⊎ (leb_ℤ (pos 50) (quot (pos 200) reserve_evict_slice_fraction) ≡ true)))
unfolding reserve_need effective_reserve ◌-ℤ◌
reserve_need-bounds_example =
    reserve_need-bounds (pos 1) (pos 500) (pos 40) (pos 1000) (pos 200) (pos 50) refl
