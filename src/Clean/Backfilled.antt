-- ===== src/Clean/Backfilled.antt =====
-- storage/cleaner.go: the coverage of the eviction index behind a whole reconcileFromMetadata.
use ocache.Base.{
  Bool, Bool-cases, Bytes, List, [], ap, bytes_eq, bytes_eq_iff, false, if-each, inl, inr, none,
  refl, subst, sym, true, ◌++◌, ◌∙◌, ◌∷◌, ◌≡◌, ◌⊎◌,
}
use ocache.Base.Assoc.{lookup}
use ocache.Base.Int.{ℤ}
use ocache.Store.State.{Store, backref_of, change_index}
use ocache.Clean.Backrefs.{IsSorted, member}
use ocache.Clean.Reconcile.{
  MetadataRow, Recon, Reconciling, apply_others, finish, new_recon, reconcile_from_metadata,
  scan_metadata, visit_metadata_row,
}
use ocache.Clean.Covered.{
  Done, Failed, Fresh, Passes, Quiet, Track, Untouched, flush_backfill-Untouched, keys_of,
  visit_metadata_row-Passes,
}

module _ (u : Reconciling) (capped : u.backfill ≡ true) (refs beyond : List Bytes)
    (whole : u.refs_failed ≡ false → beyond ≡ []) (s : Store)
    (indexed : (k : Bytes)
      → member k (refs ++ beyond) ≡ false
      → lookup (backref_of u.policy k) s.index ≡ none)
    (j : Bytes) where
  abbrev UntouchedKey : Recon → Type 0
  UntouchedKey r = Untouched u capped (refs ++ beyond) beyond whole s.index indexed j r

  abbrev LostPass : Recon → Type 0
  LostPass r = Failed u capped (refs ++ beyond) beyond whole s.index indexed r

  abbrev FreshKey : Recon → Type 0
  FreshKey r = Fresh u capped (refs ++ beyond) beyond whole s.index indexed j r

  abbrev DoneKey : Recon → Type 0
  DoneKey r = Done u capped (refs ++ beyond) beyond whole s.index indexed j r

  abbrev TrackKeys : List Bytes → Recon → Type 0
  TrackKeys keys r = Track u capped (refs ++ beyond) beyond whole s.index indexed keys r

  index-quiet :
      (l : MetadataRow) (r : Recon)
      → l.changed ≡ []
      → (apply_others l r).store.index ≡ r.store.index
  index-quiet l r e = ap (λ c. change_index c r.store.index) e

  TrackKeys-quiet :
      (l : MetadataRow) (keys : List Bytes) (r : Recon)
      → l.changed ≡ []
      → TrackKeys keys r
      → TrackKeys keys (apply_others l r)
  TrackKeys-quiet l keys r e (sorted, kept, same) = (
    sorted,
    λ k h. ((kept k h).0, ap (lookup (backref_of u.policy k)) (index-quiet l r e) ∙ (kept k h).1),
    same,
  )

  UntouchedKey-quiet :
      (l : MetadataRow) (r : Recon)
      → l.changed ≡ []
      → UntouchedKey r
      → UntouchedKey (apply_others l r)
  UntouchedKey-quiet l r e h = (h.0, ap (lookup (backref_of u.policy j)) (index-quiet l r e) ∙ h.1)

  FreshKey-quiet :
      (l : MetadataRow) (r : Recon)
      → l.changed ≡ []
      → LostPass r ⊎ FreshKey r
      → LostPass (apply_others l r) ⊎ FreshKey (apply_others l r)
  FreshKey-quiet l r e (inl bad) = inl bad
  FreshKey-quiet l r e (inr good) =
      inr (
        ap (λ m. lookup (backref_of u.policy j) (change_index r.batch m)) (index-quiet l r e)
        ∙ good)

  DoneKey-quiet :
      (l : MetadataRow) (r : Recon) → l.changed ≡ [] → DoneKey r → DoneKey (apply_others l r)
  DoneKey-quiet l r e d = (λ m. UntouchedKey-quiet l r e (d.0 m), λ m. FreshKey-quiet l r e (d.1 m))

  -- What the loop leaves, ended or not.
  abbrev Left : Bool × Recon → Type 0
  Left q = (q.0 ≡ true → DoneKey (q.1)) × (member j (refs ++ beyond) ≡ true → UntouchedKey (q.1))

  abbrev Awaits : List MetadataRow → Recon → Type 0
  Awaits ls r = (member j (keys_of ls) ≡ true) ⊎ DoneKey r

  awaited :
      (ls : List MetadataRow) (r : Recon)
      → TrackKeys (keys_of ls) r
      → Awaits ls r
      → member j (refs ++ beyond) ≡ true
      → UntouchedKey r
  awaited ls r t (inl in_keys) m = t.1 j in_keys
  awaited ls r t (inr d) m = d.0 m

  passed :
      (l : MetadataRow) (ls : List MetadataRow) (r q : Recon)
      → Passes u capped (refs ++ beyond) beyond whole s.index indexed l (keys_of ls) r q
      → Awaits (l ∷ ls) r
      → Awaits ls q
  passed l ls r q (t, self, others) a = elim (Bool-cases (bytes_eq j l.key)) [
    | inl same ↦ inr (
        subst (λ k. Done u capped (refs ++ beyond) beyond whole s.index indexed k q)
          (sym ((bytes_eq_iff j l.key).0 same)) self)
    | inr other ↦ elim a [
      | inl in_keys ↦ inl (sym (rw other refl) ∙ in_keys)
      | inr d ↦ inr (others j other d)
    ]
  ]

  Awaits-quiet :
      (l : MetadataRow) (ls : List MetadataRow) (r : Recon)
      → l.changed ≡ []
      → Awaits ls r
      → Awaits ls (apply_others l r)
  Awaits-quiet l ls r e (inl in_keys) = inl in_keys
  Awaits-quiet l ls r e (inr d) = inr (DoneKey-quiet l r e d)

  scan_metadata-Left :
      (ls : List MetadataRow) (r : Recon)
      → IsSorted (keys_of ls)
      → Quiet ls
      → TrackKeys (keys_of ls) r
      → Awaits ls r
      → Left (scan_metadata u ls r)
  unfolding scan_metadata
  scan_metadata-Left [] r sorted quiet t (inl in_keys) = absurd (cc)
  scan_metadata-Left [] r sorted quiet t (inr d) = (λ e. d, d.0)
  scan_metadata-Left (l ∷ ls) r sorted quiet t a =
      let seen : Recon = apply_others l r in
      let at : TrackKeys (l.key ∷ keys_of ls) seen =
        TrackKeys-quiet l (l.key ∷ keys_of ls) r (quiet.0) t in
      let a' : Awaits (l ∷ ls) seen = Awaits-quiet l (l ∷ ls) r (quiet.0) a in
      let q : Recon = visit_metadata_row u l seen in
      let next =
        visit_metadata_row-Passes u capped (refs ++ beyond) beyond whole s.index indexed l
          (keys_of ls) seen (sorted.0) at in
      if-each Left l.closed
        (
          λ e. absurd (cc),
          λ m.
              flush_backfill-Untouched u capped (refs ++ beyond) beyond whole s.index indexed
                l.written j seen (awaited (l ∷ ls) seen at a' m),
        )
        (scan_metadata-Left ls q (sorted.1) (quiet.1) (next.0) (passed l ls seen q next a'))

  start-TrackKeys :
      (keys : List Bytes) → IsSorted (refs ++ beyond) → TrackKeys keys (new_recon u refs s)
  start-TrackKeys keys sorted = (sorted, λ k h. (tt, refl), λ k h. refl)

  kept-finish :
      (scan_failed written pending : Bool) (tracked : ℤ) (q : Bool × Recon)
      → UntouchedKey (q.1)
      → lookup (backref_of u.policy j) (finish u scan_failed tracked pending written q).0.index
        ≡ lookup (backref_of u.policy j) s.index
  unfolding finish
  kept-finish scan_failed written pending tracked (false, r) h = h.1
  kept-finish true written pending tracked (true, r) h =
      (flush_backfill-Untouched u capped (refs ++ beyond) beyond whole s.index indexed written j r
        h).1
  kept-finish false written pending tracked (true, r) h =
      (flush_backfill-Untouched u capped (refs ++ beyond) beyond whole s.index indexed written j r
        h).1

  module _ (ls : List MetadataRow) (sorted_keys : IsSorted (keys_of ls))
      (sorted_refs : IsSorted (refs ++ beyond)) (quiet : Quiet ls) where
    started : Awaits ls (new_recon u refs s) → Left (scan_metadata u ls (new_recon u refs s))
    started a =
        scan_metadata-Left ls (new_recon u refs s) sorted_keys quiet
          (start-TrackKeys (keys_of ls) sorted_refs) a

    -- Under a disk limit a reconcile never stamps again a key that has a back-reference, whether or not a metadata row has the
    -- key, the cleaner is closed, writes of the backfill fail, or an iterator ends in an error that hides
    -- back-references. The rows and the back-references come in the order of the keys, a key without a
    -- back-reference in the snapshot has none in the store, and no other client changes the index.
    pub reconcile_from_metadata-keeps :
        (scan_failed written pending : Bool)
        → member j (refs ++ beyond) ≡ true
        → lookup
            (backref_of u.policy j)
            (reconcile_from_metadata u ls refs scan_failed written pending s).0.index
          ≡ lookup (backref_of u.policy j) s.index
    unfolding reconcile_from_metadata
    reconcile_from_metadata-keeps scan_failed written pending present =
        kept-finish scan_failed written pending s.total_size _
          ((started (inr (λ m. (tt, refl), λ m. absurd (cc)))).1 present)
