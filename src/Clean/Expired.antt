-- ===== src/Clean/Expired.antt =====
-- storage/cleaner.go: a whole run of cleanupExpiredKeys takes an expired row away.
use ocache.Base.{
  Bool, Bool-cases, Bytes, List, [], ap, arith, bytes_eq, false, if-each, if◌then◌else◌, inl, inr,
  leb, length, ltb, none, refl, some, subst, sym, true, ℕ, ◌||◌, ◌∙◌, ◌∷◌, ◌≡◌, ◌⊎◌,
}
use ocache.Base.Int.{eqb_ℤ, ℤ}
use ocache.Cas.Io.{EvictionPolicy}
use ocache.Merge.Row.{tombstone_expiry}
use ocache.Merge.Codec.{Codec}
use ocache.Wire.Proto.{Protowire}
use ocache.Clean.Strip.{expiry_of_row, version_of_row}
use ocache.Clean.Expire.{
  ExpiryCandidate, FlushIo, SnapshotRow, Sweep, batch_count, cleanup_expired_keys,
  expiry_flush_batch, flush_expired, flush_final, flush_full, is_due, is_fence, new_sweep,
  note_candidate, scan_snapshot, stage_delete, stamp_of, visit_row,
}
use ocache.Store.State.{Store}
use ocache.Base.Assoc.{lookup}
use ocache.Clean.Swept.{
  AllSmooth, Gone, Marked, Marked-append, Marked-last, Old, Smooth, flush_expired-Gone,
  flush_expired-Old,
}

module _ (pw : Protowire) (codec : Codec) (policy : EvictionPolicy) (fence_retention : ℤ) (now : ℕ)
    (key b : Bytes) (e : ℤ) (read : expiry_of_row pw b ≡ some e) where
  abbrev MarkedRow : List ExpiryCandidate → Type 0
  MarkedRow = Marked pw codec policy fence_retention now key b e read

  abbrev GoneRow : Sweep → Type 0
  GoneRow = Gone pw codec policy fence_retention now key b e read

  abbrev OldRow : Sweep → Type 0
  OldRow = Old pw codec policy fence_retention now key b e read

  -- The scan comes to the row, and does not hold it for a fence then.
  abbrev pub Comes : List SnapshotRow → Type 0
  Comes [] = ⊥
  Comes (l ∷ ls) =
      ((bytes_eq key l.key ≡ true)
        × (l.value ≡ b)
        × (is_fence pw codec policy fence_retention now l.clock e
              (stamp_of pw codec policy fence_retention now e b)
            ≡ false))
      ⊎ Comes ls

  abbrev Pending : Sweep → Type 0
  Pending p = OldRow p × (GoneRow p ⊎ MarkedRow p.candidates)

  note_candidate-Pending :
      (l : SnapshotRow) (x : ℤ) (p : Sweep)
      → Pending p
      → Pending (note_candidate pw codec policy fence_retention now l x p)
  unfolding note_candidate
  note_candidate-Pending l x p h =
      if-each Pending (is_due pw codec policy fence_retention now x)
        (if-each Pending
          (is_fence pw codec policy fence_retention now l.clock x
            (stamp_of pw codec policy fence_retention now x l.value))
          h
          (
            h.0,
            elim h.1 [
              | inl away ↦ inl away
              | inr m ↦
                  inr (
                    Marked-append pw codec policy fence_retention now key b e read p.candidates _ m)
            ],
          ))
        h

  note_candidate-OldRow :
      (l : SnapshotRow) (x : ℤ) (p : Sweep)
      → OldRow p
      → OldRow (note_candidate pw codec policy fence_retention now l x p)
  unfolding note_candidate
  note_candidate-OldRow l x p h =
      if-each OldRow (is_due pw codec policy fence_retention now x)
        (if-each OldRow
          (is_fence pw codec policy fence_retention now l.clock x
            (stamp_of pw codec policy fence_retention now x l.value))
          h h)
        h

  note_self :
      (l : SnapshotRow) (p : Sweep)
      → bytes_eq key l.key ≡ true
      → l.value ≡ b
      → is_due pw codec policy fence_retention now e ≡ true
      → is_fence pw codec policy fence_retention now l.clock e
          (stamp_of pw codec policy fence_retention now e b)
        ≡ false
      → OldRow p
      → Pending (note_candidate pw codec policy fence_retention now l e p)
  unfolding note_candidate
  note_self l p same is_b due past o =
      let past_l : is_fence pw codec policy fence_retention now l.clock e
            (stamp_of pw codec policy fence_retention now e l.value)
          ≡ false =
        ap
          (λ v.
            is_fence pw codec policy fence_retention now l.clock e
              (stamp_of pw codec policy fence_retention now e v))
          is_b
        ∙ past in
      rw (due, past_l)
        (
          o,
          inr (
              Marked-last pw codec policy fence_retention now key b e read _ p.candidates (
                same,
                refl,
                elim (Bool-cases (eqb_ℤ e tombstone_expiry)) [
                  | inr plain ↦ inl plain
                  | inl dead ↦ inr (rw dead (ap (version_of_row pw) is_b))
                ],
              )),
        )

  -- A flush in the scan or at its end.
  flush_full-Pending :
      (l : SnapshotRow) (p : Sweep)
      → l.closed_before_write ≡ false
      → Smooth l.flush_io
      → Pending p
      → ((flush_full pw codec policy fence_retention now l p).0 ≡ true)
        × Pending ((flush_full pw codec policy fence_retention now l p).1)
  unfolding flush_full
  flush_full-Pending l p open_ smooth h = rw open_ (
      if-each (λ (r : Bool × Sweep). (r.0 ≡ true) × Pending (r.1))
        (leb 1000 (batch_count p) || leb expiry_flush_batch (length p.candidates))
        (
          refl,
          (
            flush_expired-Old pw codec policy fence_retention now key b e read l.flush_io p smooth
                (h.0),
            inl (
                flush_expired-Gone pw codec policy fence_retention now key b e read l.flush_io p
                  smooth (h.0) (h.1)),
          ),
        )
        (refl, h))

  flush_full-OldRow :
      (l : SnapshotRow) (p : Sweep)
      → l.closed_before_write ≡ false
      → Smooth l.flush_io
      → OldRow p
      → ((flush_full pw codec policy fence_retention now l p).0 ≡ true)
        × OldRow ((flush_full pw codec policy fence_retention now l p).1)
  unfolding flush_full
  flush_full-OldRow l p open_ smooth h = rw open_ (
      if-each (λ (r : Bool × Sweep). (r.0 ≡ true) × OldRow (r.1))
        (leb 1000 (batch_count p) || leb expiry_flush_batch (length p.candidates))
        (
          refl,
          flush_expired-Old pw codec policy fence_retention now key b e read l.flush_io p smooth h,
        )
        (refl, h))

  stage_delete-kept :
      (P : List ExpiryCandidate → Store → Type 0) (reads : Bool) (k : Bytes) (p : Sweep)
      → P p.candidates p.store
      → P
          (stage_delete pw codec policy reads k p).candidates
          (stage_delete pw codec policy reads k p).store
  unfolding stage_delete
  stage_delete-kept P reads k p h = h

  abbrev Awaits : List SnapshotRow → Sweep → Type 0
  Awaits ls p = OldRow p × (Comes ls ⊎ (GoneRow p ⊎ MarkedRow p.candidates))

  -- What the loop does with one row keeps the key's row waited for, or makes it pending.
  visit_row-Awaits :
      (l : SnapshotRow) (ls : List SnapshotRow) (p : Sweep)
      → is_due pw codec policy fence_retention now e ≡ true
      → l.closed_before_write ≡ false
      → Smooth l.flush_io
      → Awaits (l ∷ ls) p
      → ((visit_row pw codec policy fence_retention now l (expiry_of_row pw l.value) p).0 ≡ true)
        × Awaits ls (visit_row pw codec policy fence_retention now l (expiry_of_row pw l.value) p).1
  unfolding visit_row
  visit_row-Awaits l ls p due open_ smooth (o, inl (inl (same, is_b, past))) =
      let known : expiry_of_row pw l.value ≡ some e = ap (expiry_of_row pw) is_b ∙ read in
      let at =
        flush_full-Pending l (note_candidate pw codec policy fence_retention now l e p) open_ smooth
          (note_self l p same is_b due past o) in
      rw (known, visit_row) (at.0, (at.1.0, inr (at.1.1)))
  visit_row-Awaits l ls p due open_ smooth (o, inl (inr more)) =
      elim (expiry_of_row pw l.value)
        as (λ x.
          ((visit_row pw codec policy fence_retention now l x p).0 ≡ true)
          × Awaits ls (visit_row pw codec policy fence_retention now l x p).1) [
            | none ↦ (
              refl,
              (
                stage_delete-kept
                    (λ cs s. (lookup key s.rows ≡ none) ⊎ (lookup key s.rows ≡ some b))
                    l.index_reads l.key p o,
                inl more,
              ),
            )
            | some x ↦
                let at =
                  flush_full-OldRow l (note_candidate pw codec policy fence_retention now l x p)
                    open_ smooth (note_candidate-OldRow l x p o) in
                (at.0, (at.1, inl more))
          ]
  visit_row-Awaits l ls p due open_ smooth (o, inr h) =
      elim (expiry_of_row pw l.value)
        as (λ x.
          ((visit_row pw codec policy fence_retention now l x p).0 ≡ true)
          × Awaits ls (visit_row pw codec policy fence_retention now l x p).1) [
            | none ↦ (
              refl,
              stage_delete-kept
                  (λ cs s.
                    ((lookup key s.rows ≡ none) ⊎ (lookup key s.rows ≡ some b))
                    × (Comes ls ⊎ ((lookup key s.rows ≡ none) ⊎ MarkedRow cs)))
                  l.index_reads l.key p (o, inr h),
            )
            | some x ↦
                let at =
                  flush_full-Pending l (note_candidate pw codec policy fence_retention now l x p)
                    open_ smooth (note_candidate-Pending l x p (o, h)) in
                (at.0, (at.1.0, inr (at.1.1)))
          ]

  goes :
      (P : Bool × Sweep → Type 0) (closed goes_on : Bool) (shut rest stop : Bool × Sweep)
      → closed ≡ false
      → goes_on ≡ true
      → P rest
      → P (if closed then shut else if goes_on then rest else stop)
  goes P closed goes_on shut rest stop c g h = rw (c, g) h

  Ended : Bool × Sweep → Type 0
  Ended r = (r.0 ≡ true) × Pending (r.1)

  scan_snapshot-Ended :
      (ls : List SnapshotRow) (p : Sweep)
      → is_due pw codec policy fence_retention now e ≡ true
      → AllSmooth ls
      → Awaits ls p
      → Ended (scan_snapshot pw codec policy fence_retention now ls p)
  unfolding scan_snapshot Ended
  scan_snapshot-Ended [] p due smooth (o, inl none_left) = absurd none_left
  scan_snapshot-Ended [] p due smooth (o, inr h) = (refl, (o, h))
  scan_snapshot-Ended (l ∷ ls) p due ((open_, before, alone, calm), smooth) (o, h) =
      let seen : Sweep = record p { store = l.others p.store } in
      let at : Awaits (l ∷ ls) seen =
        subst
          (λ (s : Store).
            ((lookup key s.rows ≡ none) ⊎ (lookup key s.rows ≡ some b))
            × (Comes (l ∷ ls) ⊎ ((lookup key s.rows ≡ none) ⊎ MarkedRow p.candidates)))
          (sym (alone p.store)) (o, h) in
      let next = visit_row-Awaits l ls seen due before calm at in
      let q = visit_row pw codec policy fence_retention now l (expiry_of_row pw l.value) seen in
      goes Ended l.closed (q.0) (false, p)
        (scan_snapshot pw codec policy fence_retention now ls (q.1)) (false, q.1) open_ (next.0)
        (scan_snapshot-Ended ls (q.1) due smooth (next.1))

  Marked-length : (cs : List ExpiryCandidate) → MarkedRow cs → ltb 0 (length cs) ≡ true
  Marked-length [] m = absurd m
  Marked-length (c ∷ cs) m = ground arith

  flush_final-GoneRow :
      (io : FlushIo) (r : Bool × Sweep)
      → Smooth io
      → Ended r
      → GoneRow ((flush_final pw codec policy fence_retention now io r).1)
  unfolding flush_final Ended
  flush_final-GoneRow io (false, p) smooth h = absurd (cc)
  flush_final-GoneRow io (true, p) smooth (e', (o, h)) =
      let flushed : GoneRow (flush_expired pw codec policy io p) =
        flush_expired-Gone pw codec policy fence_retention now key b e read io p smooth o h in
      elim h [
        | inl away ↦
            if-each (λ (r : Bool × Sweep). GoneRow (r.1))
              (ltb 0 (batch_count p) || ltb 0 (length p.candidates)) flushed away
        | inr m ↦
            let full : (ltb 0 (batch_count p) || ltb 0 (length p.candidates)) ≡ true =
              ground (arith, Marked-length p.candidates m) in
            rw full flushed
      ]

  -- An expired row that the scan comes to, and does not hold for a fence then, is gone behind the run, where
  -- the key has that row (or none) at the start, nobody else writes, the cleaner is not closed, and every
  -- read of a row and every write succeeds.
  pub cleanup_expired_keys-gone :
      (ls : List SnapshotRow) (io : FlushIo) (s : Store)
      → is_due pw codec policy fence_retention now e ≡ true
      → AllSmooth ls
      → Smooth io
      → Comes ls
      → (lookup key s.rows ≡ none) ⊎ (lookup key s.rows ≡ some b)
      → lookup key (cleanup_expired_keys pw codec policy fence_retention now ls io s).1.rows ≡ none
  unfolding cleanup_expired_keys
  cleanup_expired_keys-gone ls io s due smooth last comes start =
      flush_final-GoneRow io _ last
        (scan_snapshot-Ended ls (new_sweep s) due smooth (start, inl comes))
