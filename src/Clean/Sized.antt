-- ===== src/Clean/Sized.antt =====
-- storage/cleaner.go: the total that reconcileFromMetadata leaves.
use ocache.Base.{
  Bool, Bytes, List, Option, [], false, if-each, if◌then◌else◌, is_empty, leb, length, none, not,
  refl, some, sym, true, ◌&&◌, ◌++◌, ◌+◌, ◌∙◌, ◌∷◌, ◌≡◌,
}
use ocache.Base.Int.{int_laws, pos, ℤ, ◌+ℤ◌, ◌-ℤ◌}
use ocache.Segment.Format.{to_int64}
use ocache.Wire.Proto.{Protowire}
use ocache.Wire.Extract.{SizeAndRawPath, value_message_size_and_raw_path}
use ocache.Store.State.{Store}
use ocache.Clean.Strip.{ended}
use ocache.Clean.Backrefs.{advance_backref_to}
use ocache.Clean.Reconcile.{
  MetadataRow, Recon, Reconciling, apply_others, count_row, cover_row, finish, flush_backfill,
  new_recon, reconcile_from_metadata, scan_metadata, settle_coverage, stage_backfill_entry,
  visit_metadata_row,
}

-- What others add to the total until the scan ends.
abbrev pub moved_by : List MetadataRow → ℤ
moved_by [] = pos 0
moved_by (l ∷ ls) = let rest = moved_by ls in if l.closed then l.moved else l.moved +ℤ rest

abbrev pub all_open : List MetadataRow → Bool
all_open [] = true
all_open (l ∷ ls) = not l.closed && all_open ls

abbrev pub length_in : Option SizeAndRawPath → ℤ
length_in none = pos 0
length_in (some f) = to_int64 f.value_length

-- The lengths in the rows of the snapshot; a row that cannot be read has none.
abbrev pub lengths : Protowire → List MetadataRow → ℤ
lengths pw [] = pos 0
lengths pw (l ∷ ls) =
    length_in (ended (value_message_size_and_raw_path pw l.value)) +ℤ lengths pw ls

add_step : (x y s m n : ℤ) → x ≡ y +ℤ n → y ≡ (s +ℤ m) +ℤ pos 0 → x ≡ s +ℤ (m +ℤ n)
add_step x y s m n h g = rw (h, g) (omega int_laws)

add_length : (x y s d e : ℤ) → x ≡ y +ℤ e → y ≡ s +ℤ d → x ≡ s +ℤ (d +ℤ e)
add_length x y s d e h g = rw (h, g) (omega int_laws)

tracked_out : (x t s d m : ℤ) → x ≡ s +ℤ m → t ≡ pos 0 +ℤ d → x +ℤ (t -ℤ s) ≡ d +ℤ m
tracked_out x t s d m h g = rw (h, g) (omega int_laws)

module _ (u : Reconciling) where
  -- Neither total differs, nor the files that rows refer to.
  abbrev pub Same : Recon → Recon → Type 0
  Same r q =
      (q.total_size ≡ r.total_size)
      × (q.store.total_size ≡ r.store.total_size)
      × (q.referenced ≡ r.referenced)

  pub flush_backfill-Same : (written : Bool) (r : Recon) → Same r (flush_backfill written r)
  unfolding flush_backfill
  flush_backfill-Same written r =
      if-each (Same r) (is_empty r.batch) (refl, refl, refl)
        (if-each (Same r) written (refl, refl, refl) (refl, refl, refl))

  settle_coverage-Same :
      (l : MetadataRow) (a : List Bytes × Option Bool) (r : Recon)
      → Same r (settle_coverage u l a r)
  unfolding settle_coverage
  settle_coverage-Same l (refs, none) r = (refl, refl, refl)
  settle_coverage-Same l (refs, some true) r = (refl, refl, refl)
  settle_coverage-Same l (refs, some false) r =
      let staged : Recon = record r {
        refs = refs;
        batch =
            r.batch
            ++ stage_backfill_entry u.format_hour u.now u.policy l.index_reads l.key r.store;
        backfilled = r.backfilled + 1;
      } in
      if-each (Same r) (leb 1000 (length staged.batch)) (flush_backfill-Same l.written staged)
        (refl, refl, refl)

  pub cover_row-Same : (l : MetadataRow) (r : Recon) → Same r (cover_row u l r)
  unfolding cover_row
  cover_row-Same l r =
      if-each (Same r) (u.backfill && not r.backref_broken)
        (settle_coverage-Same l (advance_backref_to u.refs_failed l.key r.refs) r)
        (refl, refl, refl)

  -- The scan adds these to its sum and to the tracked total.
  abbrev Adds : ℤ → ℤ → Recon → Recon → Type 0
  Adds d m r q = (q.total_size ≡ r.total_size +ℤ d) × (q.store.total_size ≡ r.store.total_size +ℤ m)

  count_row-Adds :
      (o : Option SizeAndRawPath) (r : Recon) → Adds (length_in o) (pos 0) r (count_row u o r)
  unfolding count_row
  count_row-Adds none r = (omega int_laws, omega int_laws)
  count_row-Adds (some f) r = (refl, omega int_laws)

  visit_metadata_row-Adds :
      (l : MetadataRow) (r : Recon)
      → Adds
          (length_in (ended (value_message_size_and_raw_path u.pw l.value)))
          (pos 0)
          r
          (visit_metadata_row u l r)
  unfolding visit_metadata_row
  visit_metadata_row-Adds l r =
      let o : Option SizeAndRawPath = ended (value_message_size_and_raw_path u.pw l.value) in
      let counted : Recon = count_row u o r in
      let a : Adds (length_in o) (pos 0) r counted = count_row-Adds o r in
      let s : Same counted (cover_row u l counted) = cover_row-Same l counted in
      (s.0 ∙ a.0, s.1 ∙ a.1)

  -- A scan to the end adds every length; one that stops has moved the tracked total only.
  abbrev Ends : Recon → Bool → ℤ → ℤ → Bool × Recon → Type 0
  Ends r whole m d q =
      (q.0 ≡ whole)
      × (q.1.store.total_size ≡ r.store.total_size +ℤ m)
      × (whole ≡ true → q.1.total_size ≡ r.total_size +ℤ d)

  abbrev pub Scanned : List MetadataRow → Recon → Bool × Recon → Type 0
  Scanned ls r q = Ends r (all_open ls) (moved_by ls) (lengths u.pw ls) q

  Ends-if :
      (r : Recon) (closed whole : Bool) (m n d : ℤ) (shut going : Bool × Recon)
      → Ends r false m d shut
      → Ends r whole n d going
      → Ends r (not closed && whole) (if closed then m else n) d (if closed then shut else going)
  Ends-if r true whole m n d shut going s g = s
  Ends-if r false whole m n d shut going s g = g

  pub scan_metadata-Scanned :
      (ls : List MetadataRow) (r : Recon) → Scanned ls r (scan_metadata u ls r)
  unfolding scan_metadata
  scan_metadata-Scanned [] r = (refl, omega int_laws, λ h. omega int_laws)
  scan_metadata-Scanned (l ∷ ls) r =
      let seen : Recon = apply_others l r in
      let next : Recon = visit_metadata_row u l seen in
      let a : Adds (length_in (ended (value_message_size_and_raw_path u.pw l.value))) (pos 0) seen
          next =
        visit_metadata_row-Adds l seen in
      let ih : Scanned ls next (scan_metadata u ls next) = scan_metadata-Scanned ls next in
      let f : Same seen (flush_backfill l.written seen) = flush_backfill-Same l.written seen in
      Ends-if r l.closed (all_open ls) l.moved (l.moved +ℤ moved_by ls)
        (length_in (ended (value_message_size_and_raw_path u.pw l.value)) +ℤ lengths u.pw ls)
        (false, flush_backfill l.written seen) (scan_metadata u ls next)
        (refl, f.1, λ h. absurd (cc))
        (
          ih.0,
          add_step _ (next.store.total_size) r.store.total_size l.moved (moved_by ls) (ih.1) (a.1),
          λ h. add_length _ _ r.total_size _ (lengths u.pw ls) (ih.2 h) (a.0),
        )

  finish-Sized :
      (ls : List MetadataRow) (scan_failed pending written : Bool) (s : Store) (q : Bool × Recon)
      → (refs : List Bytes) → Scanned ls (new_recon u refs s) q
      → (finish u scan_failed s.total_size pending written q).0.total_size ≡ (
          if all_open ls && not scan_failed
          then lengths u.pw ls +ℤ moved_by ls
          else s.total_size +ℤ moved_by ls)
  unfolding finish
  finish-Sized ls scan_failed pending written s (false, r) refs h = rw (sym (h.0)) (h.1)
  finish-Sized ls true pending written s (true, r) refs h =
      let f : Same r (flush_backfill written r) = flush_backfill-Same written r in
      rw (sym (h.0)) (f.1 ∙ h.1)
  finish-Sized ls false pending written s (true, r) refs h =
      let f : Same r (flush_backfill written r) = flush_backfill-Same written r in
      rw (sym (h.0)) (
        tracked_out _ _ s.total_size (lengths u.pw ls) (moved_by ls) (f.1 ∙ h.1)
          (f.0 ∙ h.2 (sym (h.0))))

  -- A reconcile that scans every row sets the total to the lengths of the snapshot's rows and what others
  -- added since, whatever the total was; one that is closed or whose scan fails leaves the total to the
  -- others. The backfill, its errors and its failed writes never touch it.
  pub reconcile_from_metadata-total_size :
      (ls : List MetadataRow) (refs : List Bytes) (scan_failed written pending : Bool) (s : Store)
      → (reconcile_from_metadata u ls refs scan_failed written pending s).0.total_size ≡ (
          if all_open ls && not scan_failed
          then lengths u.pw ls +ℤ moved_by ls
          else s.total_size +ℤ moved_by ls)
  unfolding reconcile_from_metadata
  reconcile_from_metadata-total_size ls refs scan_failed written pending s =
      finish-Sized ls scan_failed pending written s _ refs
        (scan_metadata-Scanned ls (new_recon u refs s))
