-- ===== src/Clean/Spared.antt =====
-- storage/cleaner.go: which rows cleanupExpiredKeys leaves alone.
use ocache.Base.{
  ==_iff, Bool, Bool-cases, Bytes, List, Option, Option-cases, [], ap, arith, bytes_eq,
  bytes_eq_iff, false, if-each, inl, inr, is_empty, leb, length, ltb, none, not, refl, some, subst,
  sym, true, ℕ, ◌&&◌, ◌++◌, ◌==◌, ◌||◌, ◌∙◌, ◌∷◌, ◌≡◌, ◌≤◌, ◌⊎◌,
}
use ocache.Base.Int.{eqb_ℤ, eqb_ℤ_iff, ltb_ℤ-sub_mono, ℤ}
use ocache.Base.Assoc.{lookup, lookup-remove, remove}
use ocache.Cas.Io.{EvictionPolicy}
use ocache.Merge.Row.{ValueMessage, is_raw_file, is_segment, tombstone_expiry}
use ocache.Merge.Codec.{Codec}
use ocache.Wire.Proto.{Protowire}
use ocache.Store.State.{Store}
use ocache.Segment.Format.{to_int64}
use ocache.Clean.Strip.{expiry_of_row, unmarshal_value_message_skipping_data, version_of_row}
use ocache.Clean.Expire.{
  ExpiryCandidate, FlushIo, SnapshotRow, Sweep, batch_count, cleanup_expired_keys, commit_batch,
  expiry_flush_batch, flush_expired, flush_final, flush_full, is_due, is_fence, new_sweep,
  note_candidate, recheck, recheck_all, recheck_found, recheck_row, reclaim_value, remove_all,
  reread, scan_snapshot, stage_all, stage_delete, stage_file_deletion, stamp_of, visit_row,
  write_staged,
}

-- The key is none of these.
abbrev pub Spares : Bytes → List Bytes → Type 0
Spares key [] = Unit
Spares key (k ∷ ks) = (bytes_eq key k ≡ false) × Spares key ks

pub Spares-append :
    (key k : Bytes) (ks : List Bytes)
    → bytes_eq key k ≡ false
    → Spares key ks
    → Spares key (ks ++ k ∷ [])
Spares-append key k [] h g = (h, tt)
Spares-append key k (j ∷ ks) h g = (g.0, Spares-append key k ks h g.1)

lookup-remove_all :
    (key : Bytes) (ks : List Bytes) (m : List (Bytes × Bytes))
    → Spares key ks
    → lookup key (remove_all ks m) ≡ lookup key m
lookup-remove_all key [] m h = refl
lookup-remove_all key (k ∷ ks) m h =
    lookup-remove_all key ks (remove k m) h.1 ∙ lookup-remove key k m ∙ rw (h.0) refl

pub rows-stage_all : (vms : List ValueMessage) (s : Store) → (stage_all vms s).rows ≡ s.rows
unfolding stage_file_deletion
rows-stage_all [] s = refl
rows-stage_all (vm ∷ vms) s =
    rows-stage_all vms (stage_file_deletion vm s)
    ∙ if-each (λ (t : Store). t.rows ≡ s.rows) (is_raw_file vm.value_type) refl
        (if-each (λ (t : Store). t.rows ≡ s.rows)
          (is_segment vm.value_type && not (is_empty vm.segment_path)) refl refl)

module _ (pw : Protowire) (codec : Codec) (policy : EvictionPolicy) (fence_retention : ℤ) (now : ℕ)
    (until : ℕ) (key : Bytes) where
  -- The row has not expired, or it is a tombstone whose stamp is a fence still at the time `until`.
  abbrev pub Lives : Bytes → Type 0
  Lives b =
      (e : ℤ) × (expiry_of_row pw b ≡ some e)
      × ((is_due pw codec policy fence_retention now e ≡ false)
          ⊎ (is_fence pw codec policy fence_retention now until e (version_of_row pw b) ≡ true))

  abbrev pub LiveAt : Store → Type 0
  LiveAt s = (b : Bytes) × (lookup key s.rows ≡ some b) × Lives b

  abbrev Due : List ExpiryCandidate → Type 0
  Due [] = Unit
  Due (c ∷ cs) =
      ((is_due pw codec policy fence_retention now c.expiry ≡ true)
        × (is_fence pw codec policy fence_retention now until c.expiry c.version ≡ false))
      × Due cs

  Due-append :
      (c : ExpiryCandidate) (cs : List ExpiryCandidate)
      → is_due pw codec policy fence_retention now c.expiry ≡ true
      → is_fence pw codec policy fence_retention now until c.expiry c.version ≡ false
      → Due cs
      → Due (cs ++ c ∷ [])
  Due-append c [] h f g = ((h, f), tt)
  Due-append c (d ∷ cs) h f g = (g.0, Due-append c cs h f g.1)

  -- The key has a live row, which the batch does not delete, and every candidate was expired.
  abbrev Safe : Sweep → Type 0
  Safe p = LiveAt p.store × Spares key p.rows_batch × Due p.candidates

  -- What a step of other clients, and the snapshot's row, must not do to the key.
  abbrev pub Benign : (Store → Store) → Type 0
  Benign others = (s : Store) → LiveAt s → LiveAt (others s)

  reclaim_value-Safe :
      (o : Option ValueMessage) (p : Sweep) → Safe p → Safe (reclaim_value pw codec policy o p)
  unfolding reclaim_value
  reclaim_value-Safe none p h = h
  reclaim_value-Safe (some vm) p h =
      if-each Safe (is_segment vm.value_type && not (is_empty vm.segment_path)) h h

  stage_delete-Safe :
      (reads : Bool) (k : Bytes) (p : Sweep)
      → bytes_eq key k ≡ false
      → Safe p
      → Safe (stage_delete pw codec policy reads k p)
  unfolding stage_delete
  stage_delete-Safe reads k p h s = (s.0, Spares-append key k p.rows_batch h s.1, s.2)

  recheck_row-Safe :
      (io : FlushIo) (c : ExpiryCandidate) (b : Bytes) (o : Option ℤ) (p : Sweep)
      → bytes_eq key c.key ≡ false
      → Safe p
      → Safe (recheck_row pw codec policy io c b o p)
  unfolding recheck_row
  recheck_row-Safe io c b none p h s = stage_delete-Safe io.index_reads c.key p h s
  recheck_row-Safe io c b (some e) p h s = if-each Safe (not (eqb_ℤ e c.expiry)) s (
      if-each Safe (eqb_ℤ c.expiry tombstone_expiry && not (version_of_row pw b == c.version)) s (
        reclaim_value-Safe (unmarshal_value_message_skipping_data pw codec b) _
          (stage_delete-Safe io.index_reads c.key p h s)))

  is_fence-eqb_ℤ :
      (clock : ℕ) (e : ℤ) (v : ℕ)
      → is_fence pw codec policy fence_retention now clock e v ≡ true
      → eqb_ℤ e tombstone_expiry ≡ true
  unfolding is_fence
  is_fence-eqb_ℤ clock e v h = ground arith

  -- A live row does not match an expired candidate.
  recheck_row-eq :
      (io : FlushIo) (c : ExpiryCandidate) (b : Bytes) (p : Sweep)
      → Lives b
      → is_due pw codec policy fence_retention now c.expiry ≡ true
      → is_fence pw codec policy fence_retention now until c.expiry c.version ≡ false
      → recheck_row pw codec policy io c b (expiry_of_row pw b) p ≡ p
  unfolding recheck_row
  recheck_row-eq io c b p (e, known, live) due past =
      rw known (elim (Bool-cases (eqb_ℤ e c.expiry)) [
        | inr other ↦ rw other refl
        | inl same ↦
            let same_expiry : e ≡ c.expiry = (eqb_ℤ_iff e c.expiry).0 same in
            elim live [
              | inl fresh ↦ absurd (cc)
              | inr fence ↦ elim (Bool-cases (version_of_row pw b == c.version)) [
                | inl stamp ↦
                    let same_version : version_of_row pw b ≡ c.version = (==_iff _ _).0 stamp in
                    absurd (cc)
                | inr moved ↦
                    let dead : eqb_ℤ c.expiry tombstone_expiry ≡ true =
                      subst (λ x. eqb_ℤ x tombstone_expiry ≡ true) same_expiry
                        (is_fence-eqb_ℤ until e (version_of_row pw b) fence) in
                    rw (same, dead, moved) refl
              ]
            ]
      ])

  -- Others keep the key's row live whenever they write around a flush, the window before its write included.
  abbrev pub BenignFlush : FlushIo → Type 0
  BenignFlush io =
      Benign io.others × ((k : Bytes) → Benign (io.before_read k)) × Benign io.before_write

  reread-Safe :
      (io : FlushIo) (c : ExpiryCandidate) (p : Sweep)
      → is_due pw codec policy fence_retention now c.expiry ≡ true
      → is_fence pw codec policy fence_retention now until c.expiry c.version ≡ false
      → Safe p
      → Safe (reread pw codec policy io c p)
  unfolding reread recheck_found
  reread-Safe io c p due past s =
      if-each Safe (io.row_reads c.key)
        (elim (Bool-cases (bytes_eq key c.key)) [
          | inl same ↦
              let (b, found, live) = s.0 in
              let at : lookup c.key p.store.rows ≡ some b =
                subst (λ k. lookup k p.store.rows ≡ some b) ((bytes_eq_iff key c.key).0 same)
                  found in
              rw (at, recheck_found) (subst Safe (sym (recheck_row-eq io c b p live due past)) s)
          | inr other ↦
              elim (lookup c.key p.store.rows)
                as (λ o. Safe (recheck_found pw codec policy io c o p)) [
                  | none ↦ s
                  | some b ↦ recheck_row-Safe io c b (expiry_of_row pw b) p other s
                ]
        ])
        s

  recheck_all-Safe :
      (io : FlushIo) (cs : List ExpiryCandidate) (p : Sweep)
      → ((k : Bytes) → Benign (io.before_read k))
      → Due cs
      → Safe p
      → Safe (recheck_all pw codec policy io cs p)
  unfolding recheck_all recheck
  recheck_all-Safe io [] p calm d s = s
  recheck_all-Safe io (c ∷ cs) p calm d s =
      let seen : Sweep = record p { store = io.before_read c.key p.store } in
      recheck_all-Safe io cs (reread pw codec policy io c seen) calm (d.1)
        (reread-Safe io c seen ((d.0).0) ((d.0).1) (calm c.key p.store (s.0), s.1, s.2))

  commit_batch-LiveAt : (p : Sweep) → Safe p → LiveAt (commit_batch pw codec policy p)
  unfolding commit_batch
  commit_batch-LiveAt p ((b, found, live), spared, due) = (
    b,
    ap (lookup key) (rows-stage_all p.pending_files _)
        ∙ (lookup-remove_all key p.rows_batch p.store.rows spared ∙ found),
    live,
  )

  write_staged-Safe :
      (written : Bool) (p : Sweep) → Safe p → Safe (write_staged pw codec policy written p)
  unfolding write_staged
  write_staged-Safe written p s =
      if-each Safe (batch_count p == 0) s
        (if-each Safe written (commit_batch-LiveAt p s, tt, s.2) (s.0, tt, s.2))

  flush_expired-Safe :
      (io : FlushIo) (p : Sweep)
      → BenignFlush io
      → Safe p
      → Safe (flush_expired pw codec policy io p)
  unfolding flush_expired
  flush_expired-Safe io p calm s =
      let seen : Sweep = record p { store = io.others p.store } in
      let checked : Safe (recheck_all pw codec policy io p.candidates seen) =
        recheck_all-Safe io p.candidates seen (calm.1) (s.2) (calm.0 p.store (s.0), s.1, s.2) in
      write_staged-Safe io.written _ (calm.2 _ (checked.0), checked.1, tt)

  is_fence-later :
      (clock : ℕ) (e : ℤ) (b : Bytes)
      → clock ≤ until
      → is_fence pw codec policy fence_retention now clock e
          (stamp_of pw codec policy fence_retention now e b)
        ≡ false
      → is_fence pw codec policy fence_retention now until e
          (stamp_of pw codec policy fence_retention now e b)
        ≡ false
  unfolding is_fence
  is_fence-later clock e b le h =
      let v : ℕ = stamp_of pw codec policy fence_retention now e b in
      ground (arith, ltb_ℤ-sub_mono clock until (to_int64 v) fence_retention)

  note_candidate-Safe :
      (l : SnapshotRow) (e : ℤ) (p : Sweep)
      → l.clock ≤ until
      → Safe p
      → Safe (note_candidate pw codec policy fence_retention now l e p)
  unfolding note_candidate
  note_candidate-Safe l e p le s =
      let v : ℕ = stamp_of pw codec policy fence_retention now e l.value in
      elim (Bool-cases (is_due pw codec policy fence_retention now e)) [
        | inr fresh ↦ rw fresh s
        | inl due ↦ elim (Bool-cases (is_fence pw codec policy fence_retention now l.clock e v)) [
          | inl young ↦ rw (due, young) s
          | inr old ↦
              rw (due, old)
                (
                  s.0,
                  s.1,
                  Due-append _ p.candidates due (is_fence-later l.clock e l.value le old) (s.2),
                )
        ]
      ]

  -- What is asked of a row of the snapshot and of the steps around it: the clock is not past `until`,
  -- others keep the key's row live, and the key's row can be read.
  abbrev pub Calm : SnapshotRow → Type 0
  Calm l =
      (l.clock ≤ until)
      × Benign l.others
      × BenignFlush l.flush_io
      × ((bytes_eq key l.key ≡ false) ⊎ ((e : ℤ) × (expiry_of_row pw l.value ≡ some e)))

  abbrev pub AllCalm : List SnapshotRow → Type 0
  AllCalm [] = Unit
  AllCalm (l ∷ ls) = Calm l × AllCalm ls

  flush_full-Safe :
      (l : SnapshotRow) (p : Sweep)
      → BenignFlush l.flush_io
      → Safe p
      → Safe (flush_full pw codec policy fence_retention now l p).1
  unfolding flush_full
  flush_full-Safe l p calm s =
      if-each (λ (r : Bool × Sweep). Safe (r.1))
        (leb 1000 (batch_count p) || leb expiry_flush_batch (length p.candidates))
        (if-each (λ (r : Bool × Sweep). Safe (r.1)) l.closed_before_write s
          (flush_expired-Safe l.flush_io p calm s))
        s

  visit_row-Safe :
      (l : SnapshotRow) (p : Sweep)
      → Calm l
      → Safe p
      → Safe (visit_row pw codec policy fence_retention now l (expiry_of_row pw l.value) p).1
  unfolding visit_row
  visit_row-Safe l p calm s = elim (Option-cases (expiry_of_row pw l.value)) [
    | inr (e, read) ↦
        rw (read, visit_row) (flush_full-Safe l _ (calm.2) (note_candidate-Safe l e p (calm.0) s))
    | inl bad ↦ elim calm.3 [
      | inl other ↦ rw (bad, visit_row) (stage_delete-Safe l.index_reads l.key p other s)
      | inr (e, read) ↦ absurd (cc)
    ]
  ]

  scan_snapshot-Safe :
      (ls : List SnapshotRow) (p : Sweep)
      → AllCalm ls
      → Safe p
      → Safe (scan_snapshot pw codec policy fence_retention now ls p).1
  unfolding scan_snapshot
  scan_snapshot-Safe [] p calm s = s
  scan_snapshot-Safe (l ∷ ls) p calm s =
      let seen : Sweep = record p { store = l.others p.store } in
      let at : Safe seen = ((calm.0).1 p.store (s.0), s.1, s.2) in
      let next : Bool × Sweep =
        visit_row pw codec policy fence_retention now l (expiry_of_row pw l.value) seen in
      let q : Safe (next.1) = visit_row-Safe l seen (calm.0) at in
      if-each (λ (r : Bool × Sweep). Safe (r.1)) l.closed s
        (if-each (λ (r : Bool × Sweep). Safe (r.1)) (next.0)
          (scan_snapshot-Safe ls (next.1) (calm.1) q) q)

  flush_final-Safe :
      (io : FlushIo) (r : Bool × Sweep)
      → BenignFlush io
      → Safe (r.1)
      → Safe (flush_final pw codec policy fence_retention now io r).1
  unfolding flush_final
  flush_final-Safe io (false, p) calm s = s
  flush_final-Safe io (true, p) calm s =
      if-each (λ (r : Bool × Sweep). Safe (r.1))
        (ltb 0 (batch_count p) || ltb 0 (length p.candidates)) (flush_expired-Safe io p calm s) s

  -- A key whose row is live keeps a live row through the whole run, whatever older row of the key the
  -- snapshot shows and whatever reads and writes fail: a row that has not expired, or a tombstone whose
  -- stamp is a fence still at `until`. Other clients write at every step, also between the re-read of the row
  -- and the write of the batch, and each leaves the key with a live row: a key whose row has expired when it
  -- is re-read, and that is rewritten before the batch is written, is not spoken of. The clock does not pass
  -- `until`, and the snapshot's row of the key can be read.
  pub cleanup_expired_keys-LiveAt :
      (ls : List SnapshotRow) (io : FlushIo) (s : Store)
      → AllCalm ls
      → BenignFlush io
      → LiveAt s
      → LiveAt (cleanup_expired_keys pw codec policy fence_retention now ls io s).1
  unfolding cleanup_expired_keys
  cleanup_expired_keys-LiveAt ls io s calm last live =
      (flush_final-Safe io _ last (scan_snapshot-Safe ls (new_sweep s) calm (live, tt, tt))).0
