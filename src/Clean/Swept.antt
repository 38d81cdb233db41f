-- ===== src/Clean/Swept.antt =====
-- storage/cleaner.go: which rows cleanupExpiredKeys takes away, where no other client is at work, the cleaner
-- is not closed, and every read and write succeeds.
use ocache.Base.{
  ==_iff, Bool, Bool-cases, Bytes, List, Option, [], ap, arith, bytes_eq, bytes_eq_iff,
  bytes_eq_refl, false, if-each, inl, inr, is_empty, length, none, not, refl, some, subst, sym,
  true, ℕ, ◌&&◌, ◌++◌, ◌<◌, ◌==◌, ◌∙◌, ◌∷◌, ◌≡◌, ◌⊎◌,
}
use ocache.Base.Int.{eqb_ℤ, eqb_ℤ_iff, ℤ}
use ocache.Base.Assoc.{lookup, lookup-remove, remove}
use ocache.Cas.Io.{EvictionPolicy}
use ocache.Merge.Row.{ValueMessage, is_segment, tombstone_expiry}
use ocache.Merge.Codec.{Codec}
use ocache.Wire.Proto.{Protowire}
use ocache.Store.State.{Store}
use ocache.Clean.Strip.{expiry_of_row, unmarshal_value_message_skipping_data, version_of_row}
use ocache.Clean.Spared.{rows-stage_all}
use ocache.Clean.Expire.{
  ExpiryCandidate, FlushIo, SnapshotRow, Sweep, batch_count, commit_batch, flush_expired, recheck,
  recheck_all, recheck_found, recheck_row, reclaim_value, remove_all, reread, stage_delete,
  write_staged,
}

-- The key is one of these.
abbrev Among : Bytes → List Bytes → Type 0
Among key [] = ⊥
Among key (k ∷ ks) = (bytes_eq key k ≡ true) ⊎ Among key ks

Among-append : (key : Bytes) (ks js : List Bytes) → Among key ks → Among key (ks ++ js)
Among-append key [] js h = absurd h
Among-append key (k ∷ ks) js (inl e) = inl e
Among-append key (k ∷ ks) js (inr h) = inr (Among-append key ks js h)

Among-last : (key : Bytes) (ks : List Bytes) → Among key (ks ++ key ∷ [])
Among-last key [] = inl (bytes_eq_refl key)
Among-last key (k ∷ ks) = inr (Among-last key ks)

remove-none :
    (key k : Bytes) (m : List (Bytes × Bytes))
    → lookup key m ≡ none
    → lookup key (remove k m) ≡ none
remove-none key k m h =
    lookup-remove key k m ∙ if-each (λ (o : Option Bytes). o ≡ none) (bytes_eq key k) refl h

remove_all-none :
    (key : Bytes) (ks : List Bytes) (m : List (Bytes × Bytes))
    → lookup key m ≡ none
    → lookup key (remove_all ks m) ≡ none
remove_all-none key [] m h = h
remove_all-none key (k ∷ ks) m h = remove_all-none key ks (remove k m) (remove-none key k m h)

lookup-remove_all-none :
    (key : Bytes) (ks : List Bytes) (m : List (Bytes × Bytes))
    → Among key ks
    → lookup key (remove_all ks m) ≡ none
lookup-remove_all-none key [] m h = absurd h
lookup-remove_all-none key (k ∷ ks) m (inl e) =
    remove_all-none key ks (remove k m) (lookup-remove key k m ∙ rw e refl)
lookup-remove_all-none key (k ∷ ks) m (inr h) = lookup-remove_all-none key ks (remove k m) h

remove_all-old :
    (key b : Bytes) (ks : List Bytes) (m : List (Bytes × Bytes))
    → (lookup key m ≡ none) ⊎ (lookup key m ≡ some b)
    → (lookup key (remove_all ks m) ≡ none) ⊎ (lookup key (remove_all ks m) ≡ some b)
remove_all-old key b [] m h = h
remove_all-old key b (k ∷ ks) m h = remove_all-old key b ks (remove k m) (elim h [
  | inl gone ↦ inl (remove-none key k m gone)
  | inr there ↦ elim (Bool-cases (bytes_eq key k)) [
    | inl same ↦ inl (lookup-remove key k m ∙ rw same refl)
    | inr other ↦ inr (lookup-remove key k m ∙ (rw other refl ∙ there))
  ]
])

-- Others leave the store alone, and everything succeeds.
abbrev pub Smooth : FlushIo → Type 0
Smooth io =
    ((s : Store) → io.others s ≡ s)
    × ((k : Bytes) → io.row_reads k ≡ true)
    × (io.written ≡ true)
    × ((k : Bytes) (s : Store) → io.before_read k s ≡ s)
    × ((s : Store) → io.before_write s ≡ s)

abbrev pub AllSmooth : List SnapshotRow → Type 0
AllSmooth [] = Unit
AllSmooth (l ∷ ls) =
    ((l.closed ≡ false)
      × (l.closed_before_write ≡ false)
      × ((s : Store) → l.others s ≡ s)
      × Smooth l.flush_io)
    × AllSmooth ls

Among-length : (key : Bytes) (ks : List Bytes) → Among key ks → 0 < length ks
Among-length key [] h = absurd h
Among-length key (k ∷ ks) h = omega arith

module _ (pw : Protowire) (codec : Codec) (policy : EvictionPolicy) (fence_retention : ℤ) (now : ℕ)
    (key b : Bytes) (e : ℤ) (read : expiry_of_row pw b ≡ some e) where
  -- The candidate stands for the row.
  abbrev pub Stands : ExpiryCandidate → Type 0
  Stands c =
      (bytes_eq key c.key ≡ true)
      × (c.expiry ≡ e)
      × ((eqb_ℤ e tombstone_expiry ≡ false) ⊎ (c.version ≡ version_of_row pw b))

  abbrev pub Marked : List ExpiryCandidate → Type 0
  Marked [] = ⊥
  Marked (c ∷ cs) = Stands c ⊎ Marked cs

  pub Marked-append : (cs ds : List ExpiryCandidate) → Marked cs → Marked (cs ++ ds)
  Marked-append [] ds h = absurd h
  Marked-append (c ∷ cs) ds (inl h) = inl h
  Marked-append (c ∷ cs) ds (inr h) = inr (Marked-append cs ds h)

  pub Marked-last :
      (c : ExpiryCandidate) (cs : List ExpiryCandidate) → Stands c → Marked (cs ++ c ∷ [])
  Marked-last c [] h = inl h
  Marked-last c (d ∷ cs) h = inr (Marked-last c cs h)

  abbrev pub Gone : Sweep → Type 0
  Gone p = lookup key p.store.rows ≡ none

  -- The key has this row still, or none.
  abbrev pub Old : Sweep → Type 0
  Old p = Gone p ⊎ (lookup key p.store.rows ≡ some b)

  -- The row is gone, or the staged batch deletes it.
  abbrev Staged : Sweep → Type 0
  Staged p = Gone p ⊎ Among key p.rows_batch

  -- The steps of a re-check leave the store alone and only add to the batch.
  abbrev Grows : Sweep → Sweep → Type 0
  Grows p q = (q.store ≡ p.store) × (Staged p → Staged q)

  stage_delete-Grows :
      (reads : Bool) (k : Bytes) (p : Sweep) → Grows p (stage_delete pw codec policy reads k p)
  unfolding stage_delete
  stage_delete-Grows reads k p = (
    refl,
    λ s. elim s [ inl gone ↦ inl gone | inr h ↦ inr (Among-append key p.rows_batch (k ∷ []) h) ],
  )

  reclaim_value-Grows :
      (o : Option ValueMessage) (p q : Sweep)
      → Grows p q
      → Grows p (reclaim_value pw codec policy o q)
  unfolding reclaim_value
  reclaim_value-Grows none p q h = h
  reclaim_value-Grows (some vm) p q h =
      if-each (Grows p) (is_segment vm.value_type && not (is_empty vm.segment_path)) h h

  recheck_row-Grows :
      (io : FlushIo) (c : ExpiryCandidate) (r : Bytes) (o : Option ℤ) (p : Sweep)
      → Grows p (recheck_row pw codec policy io c r o p)
  unfolding recheck_row
  recheck_row-Grows io c r none p = stage_delete-Grows io.index_reads c.key p
  recheck_row-Grows io c r (some x) p =
      let same : Grows p p = (refl, λ s. s) in
      if-each (Grows p) (not (eqb_ℤ x c.expiry)) same (
        if-each (Grows p)
          (eqb_ℤ c.expiry tombstone_expiry && not (version_of_row pw r == c.version)) same
          (reclaim_value-Grows (unmarshal_value_message_skipping_data pw codec r) p _
            (stage_delete-Grows io.index_reads c.key p)))

  reread-Grows :
      (io : FlushIo) (c : ExpiryCandidate) (p : Sweep) → Grows p (reread pw codec policy io c p)
  unfolding reread recheck_found
  reread-Grows io c p =
      if-each (Grows p) (io.row_reads c.key)
        (elim (lookup c.key p.store.rows)
          as (λ o. Grows p (recheck_found pw codec policy io c o p)) [
            | none ↦ (refl, λ s. s)
            | some r ↦ recheck_row-Grows io c r (expiry_of_row pw r) p
          ])
        (refl, λ s. s)

  stage_self :
      (reads : Bool) (k : Bytes) (p : Sweep)
      → key ≡ k
      → Staged (stage_delete pw codec policy reads k p)
  unfolding stage_delete
  stage_self reads k p eq =
      inr (subst (λ x. Among key (p.rows_batch ++ x ∷ [])) eq (Among-last key p.rows_batch))

  reclaim_value-Staged :
      (o : Option ValueMessage) (p : Sweep) → Staged p → Staged (reclaim_value pw codec policy o p)
  unfolding reclaim_value
  reclaim_value-Staged none p h = h
  reclaim_value-Staged (some vm) p h =
      if-each Staged (is_segment vm.value_type && not (is_empty vm.segment_path)) h h

  recheck_row_self :
      (io : FlushIo) (c : ExpiryCandidate) (p : Sweep)
      → key ≡ c.key
      → eqb_ℤ e c.expiry ≡ true
      → (eqb_ℤ c.expiry tombstone_expiry && not (version_of_row pw b == c.version)) ≡ false
      → Staged (recheck_row pw codec policy io c b (some e) p)
  unfolding recheck_row
  recheck_row_self io c p eq same_expiry no_move =
      rw (same_expiry, no_move)
        (reclaim_value-Staged (unmarshal_value_message_skipping_data pw codec b)
          (stage_delete pw codec policy io.index_reads c.key p)
          (stage_self io.index_reads c.key p eq))

  -- The candidate's own re-check.
  reread_self :
      (io : FlushIo) (c : ExpiryCandidate) (p : Sweep)
      → io.row_reads c.key ≡ true
      → Stands c
      → Old p
      → Staged (reread pw codec policy io c p)
  unfolding reread recheck_found
  reread_self io c p ok stands (inl gone) = (reread-Grows io c p).1 (inl gone)
  reread_self io c p ok (same, is_e, stamp) (inr there) =
      let eq : key ≡ c.key = (bytes_eq_iff key c.key).0 same in
      let at : lookup c.key p.store.rows ≡ some b =
        subst (λ k. lookup k p.store.rows ≡ some b) eq there in
      let same_expiry : eqb_ℤ e c.expiry ≡ true = (eqb_ℤ_iff e c.expiry).1 (sym is_e) in
      let no_move : (eqb_ℤ c.expiry tombstone_expiry && not (version_of_row pw b == c.version))
          ≡ false =
        rw is_e (elim stamp [
          | inl plain ↦ rw plain refl
          | inr stamped ↦
              rw ((==_iff (version_of_row pw b) c.version).1 (sym stamped))
                (elim (eqb_ℤ e tombstone_expiry) as (λ x. (x && false) ≡ false) [
                  | true ↦ refl
                  | false ↦ refl
                ])
        ]) in
      let staged : Staged (recheck_row pw codec policy io c b (some e) p) =
        recheck_row_self io c p eq same_expiry no_move in
      rw (ok, reread)
        (rw (at, recheck_found)
          (subst (λ o. Staged (recheck_row pw codec policy io c b o p)) (sym read) staged))

  -- Nobody writes between the re-reads.
  abbrev Quiet : FlushIo → Type 0
  Quiet io = (k : Bytes) (s : Store) → io.before_read k s ≡ s

  recheck_alone :
      (io : FlushIo) (c : ExpiryCandidate) (p : Sweep)
      → Quiet io
      → reread pw codec policy io c p ≡ recheck pw codec policy io c p
  unfolding recheck
  recheck_alone io c p quiet =
      ap (λ s. reread pw codec policy io c (record p { store = s })) (sym (quiet c.key p.store))

  recheck_all-Grows :
      (io : FlushIo) (cs : List ExpiryCandidate) (p : Sweep)
      → Quiet io
      → Grows p (recheck_all pw codec policy io cs p)
  unfolding recheck_all
  recheck_all-Grows io [] p quiet = (refl, λ s. s)
  recheck_all-Grows io (c ∷ cs) p quiet =
      let one : Grows p (recheck pw codec policy io c p) =
        subst (Grows p) (recheck_alone io c p quiet) (reread-Grows io c p) in
      let rest = recheck_all-Grows io cs (recheck pw codec policy io c p) quiet in
      (rest.0 ∙ one.0, λ s. rest.1 (one.1 s))

  recheck_all-Staged :
      (io : FlushIo) (cs : List ExpiryCandidate) (p : Sweep)
      → Quiet io
      → ((k : Bytes) → io.row_reads k ≡ true)
      → Marked cs
      → Old p
      → Staged (recheck_all pw codec policy io cs p)
  unfolding recheck_all
  recheck_all-Staged io [] p quiet ok m old = absurd m
  recheck_all-Staged io (c ∷ cs) p quiet ok (inl stands) old =
      (recheck_all-Grows io cs (recheck pw codec policy io c p) quiet).1
        (subst Staged (recheck_alone io c p quiet) (reread_self io c p (ok c.key) stands old))
  recheck_all-Staged io (c ∷ cs) p quiet ok (inr m) old =
      recheck_all-Staged io cs (recheck pw codec policy io c p) quiet ok m (
        subst Old (recheck_alone io c p quiet) (
          subst (λ (s : Store). (lookup key s.rows ≡ none) ⊎ (lookup key s.rows ≡ some b))
            (sym ((reread-Grows io c p).0)) old))

  commit_batch-Gone :
      (p : Sweep) → Staged p → lookup key (commit_batch pw codec policy p).rows ≡ none
  unfolding commit_batch
  commit_batch-Gone p s = ap (lookup key) (rows-stage_all p.pending_files _) ∙ elim s [
    | inl gone ↦ remove_all-none key p.rows_batch p.store.rows gone
    | inr among ↦ lookup-remove_all-none key p.rows_batch p.store.rows among
  ]

  commit_batch-Old :
      (p : Sweep)
      → Old p
      → (lookup key (commit_batch pw codec policy p).rows ≡ none)
        ⊎ (lookup key (commit_batch pw codec policy p).rows ≡ some b)
  unfolding commit_batch
  commit_batch-Old p old =
      subst (λ m. (lookup key m ≡ none) ⊎ (lookup key m ≡ some b))
        (sym (rows-stage_all p.pending_files _))
        (remove_all-old key b p.rows_batch p.store.rows old)

  write_staged-Gone :
      (written : Bool) (p : Sweep)
      → written ≡ true
      → Staged p
      → Gone (write_staged pw codec policy written p)
  unfolding write_staged
  write_staged-Gone written p ok s = rw ok (elim (Bool-cases (batch_count p == 0)) [
    | inr some_staged ↦ rw some_staged (commit_batch-Gone p s)
    | inl none_staged ↦ elim s [
      | inl gone ↦ rw none_staged gone
      | inr among ↦ absurd (ground (arith, Among-length key p.rows_batch among))
    ]
  ])

  write_staged-Old :
      (written : Bool) (p : Sweep) → Old p → Old (write_staged pw codec policy written p)
  unfolding write_staged
  write_staged-Old written p old =
      if-each Old (batch_count p == 0) old (if-each Old written (commit_batch-Old p old) old)

  -- A flush while nobody else writes.
  flush_expired_alone :
      (io : FlushIo) (p : Sweep)
      → Smooth io
      → write_staged pw codec policy io.written
          (record (recheck_all pw codec policy io p.candidates p) { candidates = [] })
        ≡ flush_expired pw codec policy io p
  unfolding flush_expired
  flush_expired_alone io p (alone, reads, ok, quiet, last) =
      ap
        (λ s.
          write_staged pw codec policy io.written
            (record (recheck_all pw codec policy io p.candidates (record p { store = s })) {
              candidates = [];
            }))
        (sym (alone p.store))
      ∙ ap
          (λ s.
            write_staged pw codec policy io.written
              (record (recheck_all pw codec policy io p.candidates
                (record p { store = io.others p.store })) { candidates = []; store = s }))
          (sym (last _))

  -- A flush takes the row away where a candidate stands for it, and never brings one back.
  pub flush_expired-Gone :
      (io : FlushIo) (p : Sweep)
      → Smooth io
      → Old p
      → Gone p ⊎ Marked p.candidates
      → Gone (flush_expired pw codec policy io p)
  flush_expired-Gone io p smooth old h =
      let staged : Staged (recheck_all pw codec policy io p.candidates p) = elim h [
        | inl gone ↦ (recheck_all-Grows io p.candidates p (smooth.3)).1 (inl gone)
        | inr m ↦ recheck_all-Staged io p.candidates p (smooth.3) (smooth.1) m old
      ] in
      subst Gone (flush_expired_alone io p smooth) (
        write_staged-Gone io.written
          (record (recheck_all pw codec policy io p.candidates p) { candidates = [] }) (smooth.2)
          staged)

  pub flush_expired-Old :
      (io : FlushIo) (p : Sweep) → Smooth io → Old p → Old (flush_expired pw codec policy io p)
  flush_expired-Old io p smooth old = subst Old (flush_expired_alone io p smooth) (
      write_staged-Old io.written
        (record (recheck_all pw codec policy io p.candidates p) { candidates = [] })
        (subst (λ (s : Store). (lookup key s.rows ≡ none) ⊎ (lookup key s.rows ≡ some b))
          (sym ((recheck_all-Grows io p.candidates p (smooth.3)).0)) old))
