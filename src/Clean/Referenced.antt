-- ===== src/Clean/Referenced.antt =====
-- storage/cleaner.go and storage/orphan_sweep.go together: the files of the snapshot's rows, from the
-- reconcile that collects them to the sweep behind it.
use mathlib.Core.Option.{some-injective}
use ocache.Base.{
  Bool, Bool-cases, Bytes, List, Option, [], ap, arith, bytes_eq, bytes_eq_iff, false, if-each,
  if◌then◌else◌, inl, inr, is_empty, none, not, refl, some, sym, true, ◌&&◌, ◌∙◌, ◌∷◌, ◌≡◌, ◌⊎◌,
}
use ocache.Base.Int.{pos, ℤ, ◌-ℤ◌}
use ocache.Base.Assoc.{insert, lookup, lookup-insert}
use ocache.Segment.Format.{to_int64}
use ocache.Store.State.{Store}
use ocache.Wire.Proto.{Protowire}
use ocache.Wire.Extract.{SizeAndRawPath, value_message_size_and_raw_path}
use ocache.Clean.Strip.{ended}
use ocache.Clean.Reconcile.{
  MetadataRow, Recon, Reconciling, add_reference, apply_others, base, count_row, finish,
  flush_backfill, new_recon, reconcile_from_metadata, scan_metadata, visit_metadata_row,
}
use ocache.Clean.Orphans.{DirEntry, OrphanSweep, join, new_orphan_sweep, sweep_orphan_raw_files}
use ocache.Clean.Owned.{is_unowned, sweep_entries-Spares}
use ocache.Clean.Spared.{Spares}
use ocache.Clean.Sized.{all_open, cover_row-Same, flush_backfill-Same, scan_metadata-Scanned}

-- A row of the snapshot names the file.
abbrev pub Refers : Protowire → Bytes → List MetadataRow → Type 0
Refers pw path [] = ⊥
Refers pw path (l ∷ ls) =
    ((f : SizeAndRawPath) × (ended (value_message_size_and_raw_path pw l.value) ≡ some f)
      × (f.raw_path ≡ path))
    ⊎ Refers pw path ls

-- The sweep that follows a reconcile, where it is to follow.
unfoldable pub sweep_behind :
    Bytes
    → ℤ
    → Option (List DirEntry)
    → List Bytes
    → Option (List (Bytes × ℤ))
    → Option (Bool × OrphanSweep)
unfolding sweep_orphan_raw_files
sweep_behind dir scan_start listing queued none = none
sweep_behind dir scan_start listing queued (some referenced) =
    some (sweep_orphan_raw_files dir referenced scan_start listing queued)

-- The sweep does not queue the path, where it runs.
abbrev pub NotQueued : Bytes → Option (Bool × OrphanSweep) → Type 0
NotQueued path none = Unit
NotQueued path (some (completed, sweep)) = Spares path sweep.queued

module _ (u : Reconciling) (due : u.sweep_due ≡ true) (path : Bytes)
    (named : is_empty path ≡ false) where
  abbrev Known : Recon → Type 0
  Known r = is_unowned (lookup (base path) r.referenced) ≡ false

  Known-insert :
      (name : Bytes) (size : ℤ) (m : List (Bytes × ℤ))
      → (is_unowned (lookup (base path) m) ≡ false) ⊎ (bytes_eq (base path) name ≡ true)
      → is_unowned (lookup (base path) (insert name size m)) ≡ false
  Known-insert name size m h =
      ap is_unowned (lookup-insert (base path) name size m)
      ∙ elim (Bool-cases (bytes_eq (base path) name)) [
        | inl same ↦ rw same refl
        | inr other ↦ elim h [ inl known ↦ rw other known | inr same ↦ absurd (cc) ]
      ]

  -- Counting a row keeps what is known, and adds its own file.
  Known-count :
      (o : Option SizeAndRawPath) (r : Recon)
      → (Known r ⊎ ((f : SizeAndRawPath) × (o ≡ some f) × (f.raw_path ≡ path)))
      → Known (count_row u o r)
  unfolding count_row add_reference
  Known-count none r (inl h) = h
  Known-count none r (inr (f, e, p)) = absurd (cc)
  Known-count (some f) r (inl h) =
      if-each (λ (m : List (Bytes × ℤ)). is_unowned (lookup (base path) m) ≡ false)
        (u.sweep_due && not (is_empty f.raw_path))
        (Known-insert (base f.raw_path) (to_int64 f.value_length) r.referenced (inl h)) h
  Known-count (some f) r (inr (g, e, p)) =
      let same_path : f.raw_path ≡ path =
        ap (λ (x : SizeAndRawPath). x.raw_path) (some-injective _ _ e) ∙ p in
      let full : is_empty f.raw_path ≡ false = ap is_empty same_path ∙ named in
      rw (due, full)
        (Known-insert (base f.raw_path) (to_int64 f.value_length) r.referenced
          (inr ((bytes_eq_iff (base path) (base f.raw_path)).1 (ap base (sym same_path)))))

  Known-visit_metadata_row :
      (l : MetadataRow) (r : Recon)
      → (Known r
          ⊎ ((f : SizeAndRawPath) × (ended (value_message_size_and_raw_path u.pw l.value) ≡ some f)
              × (f.raw_path ≡ path)))
      → Known (visit_metadata_row u l r)
  unfolding visit_metadata_row
  Known-visit_metadata_row l r h =
      let counted : Recon = count_row u (ended (value_message_size_and_raw_path u.pw l.value)) r in
      let same = cover_row-Same u l counted in
      ap (λ m. is_unowned (lookup (base path) m)) (same.2)
      ∙ Known-count (ended (value_message_size_and_raw_path u.pw l.value)) r h

  pick :
      (c : Bool) → c ≡ false → (x y : Bool × Recon) → Known (y.1) → Known ((if c then x else y).1)
  pick true e x y h = absurd (cc)
  pick false e x y h = h

  scan_metadata-Known :
      (ls : List MetadataRow) (r : Recon)
      → all_open ls ≡ true
      → Known r ⊎ Refers u.pw path ls
      → Known (scan_metadata u ls r).1
  unfolding scan_metadata
  scan_metadata-Known [] r o (inl h) = h
  scan_metadata-Known [] r o (inr h) = absurd h
  scan_metadata-Known (l ∷ ls) r o h =
      let q : Recon = visit_metadata_row u l (apply_others l r) in
      let later : all_open ls ≡ true = ground arith in
      let next : Known q ⊎ Refers u.pw path ls = elim h [
        | inl k ↦ inl (Known-visit_metadata_row l (apply_others l r) (inl k))
        | inr (inl f) ↦ inl (Known-visit_metadata_row l (apply_others l r) (inr f))
        | inr (inr more) ↦ inr more
      ] in
      let open_ : l.closed ≡ false = ground arith in
      pick l.closed open_ _ _ (scan_metadata-Known ls q later next)

  sweeps :
      (scan_failed written pending : Bool) (tracked scan_start : ℤ) (q : Bool × Recon) (dir : Bytes)
      (listing : Option (List DirEntry)) (queued : List Bytes)
      → (q.0 ≡ true → Known (q.1))
      → Spares (join dir (base path)) queued
      → NotQueued (join dir (base path)) (
          sweep_behind dir scan_start listing queued
            (finish u scan_failed tracked pending written q).1.1)
  unfolding finish sweep_behind sweep_orphan_raw_files
  sweeps scan_failed written pending tracked scan_start (false, r) dir listing queued k h = tt
  sweeps true written pending tracked scan_start (true, r) dir listing queued k h = tt
  sweeps false written pending tracked scan_start (true, r) dir listing queued k h =
      if-each
        (λ (o : Option (List (Bytes × ℤ))).
          NotQueued (join dir (base path)) (sweep_behind dir scan_start listing queued o))
        u.sweep_due
        (elim listing
          as (λ o.
            Spares (join dir (base path))
              (sweep_orphan_raw_files dir ((flush_backfill written r).referenced) scan_start o
                queued).1.queued) [
                  | none ↦ h
                  | some es ↦
                      sweep_entries-Spares dir _ (scan_start -ℤ pos 600000000000) (base path) 0 es
                        (new_orphan_sweep queued)
                        (ap (λ m. is_unowned (lookup (base path) m))
                            ((flush_backfill-Same u written r).2)
                          ∙ k refl)
                        h
                ])
        tt

  no_sweep :
      (scan_failed written pending : Bool) (tracked scan_start : ℤ) (q : Bool × Recon) (dir : Bytes)
      (listing : Option (List DirEntry)) (queued : List Bytes)
      → (q.0 && not scan_failed) ≡ false
      → sweep_behind dir scan_start listing queued
          (finish u scan_failed tracked pending written q).1.1
        ≡ none
  unfolding finish sweep_behind
  no_sweep scan_failed written pending tracked scan_start (false, r) dir listing queued h = refl
  no_sweep true written pending tracked scan_start (true, r) dir listing queued h = refl
  no_sweep false written pending tracked scan_start (true, r) dir listing queued h = absurd (cc)

  -- Where a reconcile hands its references to the orphan sweep, the sweep does not queue a raw file that a
  -- row of the snapshot names, whatever the listing, the clock and the locks say and also where it is
  -- interrupted. Where the reconcile is closed or its scan ends in an error no sweep runs.
  pub sweep_behind-NotQueued :
      (ls : List MetadataRow) (refs : List Bytes) (scan_failed written pending : Bool) (s : Store)
      (dir : Bytes) (scan_start : ℤ) (listing : Option (List DirEntry)) (queued : List Bytes)
      → Refers u.pw path ls
      → Spares (join dir (base path)) queued
      → NotQueued (join dir (base path)) (
          sweep_behind dir scan_start listing queued
            (reconcile_from_metadata u ls refs scan_failed written pending s).1.1)
        × ((all_open ls && not scan_failed) ≡ false
            → sweep_behind dir scan_start listing queued
                (reconcile_from_metadata u ls refs scan_failed written pending s).1.1
              ≡ none)
  unfolding reconcile_from_metadata
  sweep_behind-NotQueued ls refs scan_failed written pending s dir scan_start listing queued r h =
      let start : Recon = new_recon u refs s in
      let whole = scan_metadata-Scanned u ls start in
      (
        sweeps scan_failed written pending s.total_size scan_start _ dir listing queued
            (λ e. scan_metadata-Known ls start (sym (whole.0) ∙ e) (inr r)) h,
        λ cut.
            no_sweep scan_failed written pending s.total_size scan_start _ dir listing queued
              (ap (λ b. b && not scan_failed) (whole.0) ∙ cut),
      )
