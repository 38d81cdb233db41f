-- ===== src/Clean/Covered.antt =====
-- storage/cleaner.go: the back-references that reconcileFromMetadata leaves, where no other client changes
-- the eviction index meanwhile.
use ocache.Base.{
  Bool, Bool-cases, Bytes, List, Option, [], ap, arith, bytes_eq, bytes_eq_iff, bytes_eq_refl,
  false, if-each, if◌then◌else◌, inl, inr, is_empty, leb, length, none, not, refl, some, subst, sym,
  true, ◌&&◌, ◌++◌, ◌+◌, ◌<◌, ◌∙◌, ◌∷◌, ◌≡◌, ◌⊎◌,
}
use ocache.Base.Assoc.{lookup}
use ocache.Keys.Order.{lex_lt}
use ocache.Clean.Strip.{ended}
use ocache.Wire.Extract.{value_message_size_and_raw_path}
use ocache.Store.State.{backref_of, change_index}
use ocache.Clean.Backrefs.{
  Above, Answers, IsSorted, advance_backref_to, advance_backref_to-Advanced, lex_lt-ne, member,
}
use ocache.Clean.Reconcile.{
  MetadataRow, Recon, Reconciling, count_row, cover_row, flush_backfill, fresh_entry,
  settle_coverage, stage_backfill_entry, visit_metadata_row,
}
use ocache.Clean.Indexed.{
  Leaves, Leaves-append, Leaves-entry_rows, change_index-append, entry_rows, lookup-change_index,
  lookup-entry_rows, stage_backfill_entry-eq,
}

abbrev pub keys_of : List MetadataRow → List Bytes
keys_of [] = []
keys_of (l ∷ ls) = l.key ∷ keys_of ls

abbrev pub Quiet : List MetadataRow → Type 0
Quiet [] = Unit
Quiet (l ∷ ls) = (l.changed ≡ []) × Quiet ls

-- `beyond` are the suffixes that an error of the iterator hides, `known` the index at the start.
module _ (u : Reconciling) (capped : u.backfill ≡ true) (all beyond : List Bytes)
    (whole : u.refs_failed ≡ false → beyond ≡ []) (known : List (Bytes × Bytes))
    (indexed : (k : Bytes)
      → member k all ≡ false
      → lookup (backref_of u.policy k) known ≡ none) where
  -- The key's back-reference is what it was, and no staged change is to it.
  abbrev pub Untouched : Bytes → Recon → Type 0
  Untouched k r =
      Leaves (backref_of u.policy k) r.batch
      × (lookup (backref_of u.policy k) r.store.index ≡ lookup (backref_of u.policy k) known)

  abbrev pub Failed : Recon → Type 0
  Failed r = (0 < r.write_errs) ⊎ (r.backref_broken ≡ true)

  -- The key's back-reference names its fresh entry, once the batch is written.
  abbrev pub Fresh : Bytes → Recon → Type 0
  Fresh k r =
      lookup (backref_of u.policy k) (change_index r.batch r.store.index) ≡ some (fresh_entry u k)

  abbrev pub Done : Bytes → Recon → Type 0
  Done k r = (member k all ≡ true → Untouched k r) × (member k all ≡ false → Failed r ⊎ Fresh k r)

  -- What the scan knows of the keys that it has still to see.
  abbrev pub Track : List Bytes → Recon → Type 0
  Track keys r =
      IsSorted (r.refs ++ beyond)
      × ((k : Bytes) → member k keys ≡ true → Untouched k r)
      × ((k : Bytes) → member k keys ≡ true → member k (r.refs ++ beyond) ≡ member k all)

  pub flush_backfill-Untouched :
      (written : Bool) (k : Bytes) (r : Recon)
      → Untouched k r
      → Untouched k (flush_backfill written r)
  unfolding flush_backfill
  flush_backfill-Untouched written k r h = if-each (Untouched k) (is_empty r.batch) h (
      if-each (Untouched k) written
        (tt, lookup-change_index (backref_of u.policy k) r.batch r.store.index (h.0) ∙ h.1)
        (tt, h.1))

  pub flush_backfill-Fresh :
      (written : Bool) (k : Bytes) (r : Recon)
      → Failed r ⊎ Fresh k r
      → Failed (flush_backfill written r) ⊎ Fresh k (flush_backfill written r)
  unfolding flush_backfill
  flush_backfill-Fresh written k r (inl (inl errs)) =
      if-each (λ (q : Recon). Failed q ⊎ Fresh k q) (is_empty r.batch) (inl (inl errs))
        (if-each (λ (q : Recon). Failed q ⊎ Fresh k q) written (inl (inl errs))
          (inl (inl (omega arith))))
  flush_backfill-Fresh written k r (inl (inr broken)) =
      if-each (λ (q : Recon). Failed q ⊎ Fresh k q) (is_empty r.batch) (inl (inr broken))
        (if-each (λ (q : Recon). Failed q ⊎ Fresh k q) written (inl (inr broken))
          (inl (inr broken)))
  flush_backfill-Fresh written k r (inr fresh) =
      if-each (λ (q : Recon). Failed q ⊎ Fresh k q) (is_empty r.batch) (inr fresh)
        (if-each (λ (q : Recon). Failed q ⊎ Fresh k q) written (inr fresh)
          (inl (inl (omega arith))))

  abbrev stage : MetadataRow → List Bytes → Recon → Recon
  stage l refs r = record r {
    refs = refs;
    batch =
        r.batch ++ stage_backfill_entry u.format_hour u.now u.policy l.index_reads l.key r.store;
    backfilled = r.backfilled + 1;
  }

  -- The row of a key without a back-reference.
  stage-Untouched :
      (l : MetadataRow) (refs : List Bytes) (k : Bytes) (r : Recon)
      → lookup (backref_of u.policy l.key) r.store.index ≡ none
      → bytes_eq k l.key ≡ false
      → Untouched k r
      → Untouched k (stage l refs r)
  stage-Untouched l refs k r absent other h = (
    rw (stage_backfill_entry-eq u l.index_reads l.key r.store absent)
        (Leaves-append (backref_of u.policy k) r.batch _ (h.0) (Leaves-entry_rows u k l.key other)),
    h.1,
  )

  stage-Fresh :
      (l : MetadataRow) (refs : List Bytes) (k : Bytes) (r : Recon)
      → lookup (backref_of u.policy l.key) r.store.index ≡ none
      → bytes_eq k l.key ≡ false
      → Failed r ⊎ Fresh k r
      → Failed (stage l refs r) ⊎ Fresh k (stage l refs r)
  stage-Fresh l refs k r absent other (inl lost) = inl lost
  stage-Fresh l refs k r absent other (inr fresh) = inr (
      rw (stage_backfill_entry-eq u l.index_reads l.key r.store absent) (
        ap (lookup (backref_of u.policy k))
          (change_index-append r.batch (entry_rows u l.key) r.store.index)
        ∙ (lookup-change_index (backref_of u.policy k) (entry_rows u l.key)
              (change_index r.batch r.store.index) (Leaves-entry_rows u k l.key other)
            ∙ fresh)))

  stage_self :
      (l : MetadataRow) (refs : List Bytes) (r : Recon)
      → lookup (backref_of u.policy l.key) r.store.index ≡ none
      → Fresh l.key (stage l refs r)
  stage_self l refs r absent = rw (stage_backfill_entry-eq u l.index_reads l.key r.store absent) (
      ap (lookup (backref_of u.policy l.key))
        (change_index-append r.batch (entry_rows u l.key) r.store.index)
      ∙ lookup-entry_rows u l.key (change_index r.batch r.store.index))

  -- Where the merge finds no back-reference, the live index has none either.
  abbrev Absent : MetadataRow → List Bytes × Option Bool → Recon → Type 0
  Absent l a r = a.1 ≡ some false → lookup (backref_of u.policy l.key) r.store.index ≡ none

  abbrev settle : MetadataRow → List Bytes × Option Bool → Recon → Recon
  settle l a r = settle_coverage u l a r

  settle-Untouched :
      (l : MetadataRow) (a : List Bytes × Option Bool) (k : Bytes) (r : Recon)
      → Absent l a r
      → bytes_eq k l.key ≡ false
      → Untouched k r
      → Untouched k (settle l a r)
  unfolding settle_coverage
  settle-Untouched l (refs, none) k r absent other h = h
  settle-Untouched l (refs, some true) k r absent other h = h
  settle-Untouched l (refs, some false) k r absent other h =
      let at : Untouched k (stage l refs r) = stage-Untouched l refs k r (absent refl) other h in
      if-each (Untouched k) (leb 1000 (length (stage l refs r).batch))
        (flush_backfill-Untouched l.written k (stage l refs r) at) at

  settle-Fresh :
      (l : MetadataRow) (a : List Bytes × Option Bool) (k : Bytes) (r : Recon)
      → Absent l a r
      → bytes_eq k l.key ≡ false
      → Failed r ⊎ Fresh k r
      → Failed (settle l a r) ⊎ Fresh k (settle l a r)
  unfolding settle_coverage
  settle-Fresh l (refs, none) k r absent other h = inl (inr refl)
  settle-Fresh l (refs, some true) k r absent other h = h
  settle-Fresh l (refs, some false) k r absent other h =
      let at : Failed (stage l refs r) ⊎ Fresh k (stage l refs r) =
        stage-Fresh l refs k r (absent refl) other h in
      if-each (λ (q : Recon). Failed q ⊎ Fresh k q) (leb 1000 (length (stage l refs r).batch))
        (flush_backfill-Fresh l.written k (stage l refs r) at) at

  settle_self :
      (l : MetadataRow) (a : List Bytes × Option Bool) (r : Recon)
      → Absent l a r
      → Answers (member l.key all) (a.1)
      → Untouched l.key r
      → Done l.key (settle l a r)
  unfolding settle_coverage
  settle_self l (refs, none) r absent answer h = (λ m. h, λ m. inl (inr refl))
  settle_self l (refs, some true) r absent answer h = (λ m. h, λ m. absurd (cc))
  settle_self l (refs, some false) r absent answer h = (
    λ m. absurd (cc),
    λ m.
        let at : Failed (stage l refs r) ⊎ Fresh l.key (stage l refs r) =
          inr (stage_self l refs r (absent refl)) in
        if-each (λ (q : Recon). Failed q ⊎ Fresh l.key q) (leb 1000 (length (stage l refs r).batch))
          (flush_backfill-Fresh l.written l.key (stage l refs r) at) at,
  )

  refs-settle :
      (l : MetadataRow) (a : List Bytes × Option Bool) (r : Recon) → (settle l a r).refs ≡ a.0
  unfolding settle_coverage flush_backfill
  refs-settle l (refs, none) r = refl
  refs-settle l (refs, some true) r = refl
  refs-settle l (refs, some false) r =
      if-each (λ (q : Recon). q.refs ≡ refs) (leb 1000 (length (stage l refs r).batch))
        (if-each (λ (q : Recon). q.refs ≡ refs) (is_empty (stage l refs r).batch) refl
          (if-each (λ (q : Recon). q.refs ≡ refs) l.written refl refl))
        refl

  -- One row of the scan: what is known of the rows behind it, and of those that it has passed.
  abbrev pub Passes : MetadataRow → List Bytes → Recon → Recon → Type 0
  Passes l keys r q =
      Track keys q × Done l.key q × ((j : Bytes) → bytes_eq j l.key ≡ false → Done j r → Done j q)

  member-Above-ne :
      (k l : Bytes) (keys : List Bytes) → Above l keys → member k keys ≡ true → lex_lt l k ≡ true
  member-Above-ne k l [] above h = absurd (cc)
  member-Above-ne k l (j ∷ keys) above h = elim (Bool-cases (bytes_eq k j)) [
    | inl same ↦ subst (λ x. lex_lt l x ≡ true) (sym ((bytes_eq_iff k j).0 same)) (above.0)
    | inr other ↦ member-Above-ne k l keys (above.1) (sym (rw other refl) ∙ h)
  ]

  member_tail :
      (k j : Bytes) (keys : List Bytes) → member k keys ≡ true → member k (j ∷ keys) ≡ true
  member_tail k j keys h = elim (Bool-cases (bytes_eq k j)) [
    | inl same ↦ rw same refl
    | inr other ↦ rw other h
  ]

  member_head : (k : Bytes) (keys : List Bytes) → member k (k ∷ keys) ≡ true
  member_head k keys = rw (bytes_eq_refl k) refl

  no_answer : (o : Option Bool) (m : Bool) → Answers m o → o ≡ some false → m ≡ false
  no_answer none m h e = absurd (cc)
  no_answer (some c) m h e = cc

  settle-Passes :
      (l : MetadataRow) (keys : List Bytes) (r : Recon)
      → Above l.key keys
      → Track (l.key ∷ keys) r
      → Passes l keys r (settle l (advance_backref_to u.refs_failed l.key r.refs) r)
  settle-Passes l keys r above (sorted, untouched, same) =
      let a : List Bytes × Option Bool = advance_backref_to u.refs_failed l.key r.refs in
      let (answer, left_sorted, left_same) =
        advance_backref_to-Advanced u.refs_failed beyond whole l.key r.refs sorted in
      let self : Untouched l.key r = untouched l.key (member_head l.key keys) in
      let told : Answers (member l.key all) (a.1) =
        subst (λ m. Answers m (a.1)) (same l.key (member_head l.key keys)) answer in
      let absent : Absent l a r =
        λ e. self.1 ∙ indexed l.key (no_answer (a.1) (member l.key all) told e) in
      (
        (
          subst (λ refs. IsSorted (refs ++ beyond)) (sym (refs-settle l a r)) left_sorted,
          λ k h.
              let at : lex_lt l.key k ≡ true = member-Above-ne k l.key keys above h in
              settle-Untouched l a k r absent (lex_lt-ne l.key k at)
                (untouched k (member_tail k l.key keys h)),
          λ k h.
              let at : lex_lt l.key k ≡ true = member-Above-ne k l.key keys above h in
              ap (λ refs. member k (refs ++ beyond)) (refs-settle l a r)
              ∙ (left_same k at ∙ same k (member_tail k l.key keys h)),
        ),
        settle_self l a r absent told self,
        λ j other done. (
          λ m. settle-Untouched l a j r absent other (done.0 m),
          λ m. settle-Fresh l a j r absent other (done.1 m),
        ),
      )

  cover_row-Passes :
      (l : MetadataRow) (keys : List Bytes) (r : Recon)
      → Above l.key keys
      → Track (l.key ∷ keys) r
      → Passes l keys r (cover_row u l r)
  unfolding cover_row
  cover_row-Passes l keys r above track =
      let whole_pass : (broken : Bool)
          → r.backref_broken ≡ broken
          → Passes l keys r (
              if true && not broken
              then settle l (advance_backref_to u.refs_failed l.key r.refs) r
              else r) =
        λ broken.
          elim broken
            as (λ b.
              r.backref_broken ≡ b
              → Passes l keys r (
                  if true && not b
                  then settle l (advance_backref_to u.refs_failed l.key r.refs) r
                  else r)) [
                    | false ↦ λ e. settle-Passes l keys r above track
                    | true ↦ λ e. (
                      (
                        track.0,
                        λ k h. track.1 k (member_tail k l.key keys h),
                        λ k h. track.2 k (member_tail k l.key keys h),
                      ),
                      (λ m. track.1 l.key (member_head l.key keys), λ m. inl (inr e)),
                      λ j other done. done,
                    )
                  ] in
      subst
        (λ c. Passes l keys r (
          if c && not r.backref_broken
          then settle l (advance_backref_to u.refs_failed l.key r.refs) r
          else r))
        (sym capped) (whole_pass r.backref_broken refl)

  pub visit_metadata_row-Passes :
      (l : MetadataRow) (keys : List Bytes) (r : Recon)
      → Above l.key keys
      → Track (l.key ∷ keys) r
      → Passes l keys r (visit_metadata_row u l r)
  unfolding visit_metadata_row count_row
  visit_metadata_row-Passes l keys r above track =
      elim (ended (value_message_size_and_raw_path u.pw l.value))
        as (λ o. Passes l keys r (cover_row u l (count_row u o r))) [
          | none ↦ cover_row-Passes l keys r above track
          | some f ↦ cover_row-Passes l keys _ above track
        ]
