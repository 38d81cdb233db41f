-- ===== src/Clean/Indexed.antt =====
-- storage/cleaner.go: what stageBackfillEntry does to the back-references of the eviction index, its own
-- key's and the others'.
use ocache.Base.{
  Bool, Bytes, List, [], arith, bytes_eq, bytes_eq_refl, false, none, refl, some, true, ℕ, ◌++◌,
  ◌∙◌, ◌∷◌, ◌≡◌,
}
use ocache.Base.Assoc.{insert, lookup, lookup-insert, lookup-remove, remove}
use ocache.Cas.Io.{EvictionPolicy, fifo, lru}
use ocache.Keys.Format.{
  access_bucket_index_prefix, fifo_backref_prefix, make_bucketed_access_index_key,
  make_bucketed_access_key, make_fifo_backref_key, make_fifo_index_key,
}
use ocache.Store.State.{
  IndexChange, Store, backref_of, change_index, drop_index, set_index, write_fifo_index_entry,
}
use ocache.Clean.Reconcile.{Reconciling, entry_at, fresh_entry, stage_backfill_entry}

-- No change is to this row.
abbrev pub Leaves : Bytes → List IndexChange → Type 0
Leaves b [] = Unit
Leaves b (set_index k v ∷ cs) = (bytes_eq b k ≡ false) × Leaves b cs
Leaves b (drop_index k ∷ cs) = (bytes_eq b k ≡ false) × Leaves b cs

pub lookup-change_index :
    (b : Bytes) (cs : List IndexChange) (m : List (Bytes × Bytes))
    → Leaves b cs
    → lookup b (change_index cs m) ≡ lookup b m
lookup-change_index b [] m h = refl
lookup-change_index b (set_index k v ∷ cs) m h =
    lookup-change_index b cs (insert k v m) (h.1) ∙ lookup-insert b k v m ∙ rw (h.0) refl
lookup-change_index b (drop_index k ∷ cs) m h =
    lookup-change_index b cs (remove k m) (h.1) ∙ lookup-remove b k m ∙ rw (h.0) refl

pub Leaves-append :
    (b : Bytes) (cs ds : List IndexChange) → Leaves b cs → Leaves b ds → Leaves b (cs ++ ds)
Leaves-append b [] ds h g = g
Leaves-append b (set_index k v ∷ cs) ds h g = (h.0, Leaves-append b cs ds (h.1) g)
Leaves-append b (drop_index k ∷ cs) ds h g = (h.0, Leaves-append b cs ds (h.1) g)

pub change_index-append :
    (cs ds : List IndexChange) (m : List (Bytes × Bytes))
    → change_index (cs ++ ds) m ≡ change_index ds (change_index cs m)
change_index-append [] ds m = refl
change_index-append (set_index k v ∷ cs) ds m = change_index-append cs ds (insert k v m)
change_index-append (drop_index k ∷ cs) ds m = change_index-append cs ds (remove k m)

pub bytes_eq-append : (p xs ys : Bytes) → bytes_eq (p ++ xs) (p ++ ys) ≡ bytes_eq xs ys
unfolding bytes_eq
bytes_eq-append [] xs ys = refl
bytes_eq-append (c ∷ p) xs ys = ground (arith, bytes_eq-append p xs ys)

pub backref_of-ne :
    (policy : EvictionPolicy) (j k : Bytes)
    → bytes_eq j k ≡ false
    → bytes_eq (backref_of policy j) (backref_of policy k) ≡ false
unfolding make_fifo_backref_key make_bucketed_access_index_key
backref_of-ne fifo j k h = bytes_eq-append fifo_backref_prefix j k ∙ h
backref_of-ne lru j k h = bytes_eq-append access_bucket_index_prefix j k ∙ h

backref_of-entry_at :
    (format_hour : ℕ → Bytes) (now : ℕ) (policy : EvictionPolicy) (j k : Bytes)
    → bytes_eq (backref_of policy j) (entry_at format_hour now policy k) ≡ false
unfolding make_fifo_backref_key make_bucketed_access_index_key make_fifo_index_key
    make_bucketed_access_key bytes_eq
backref_of-entry_at format_hour now fifo j k = refl
backref_of-entry_at format_hour now lru j k = refl

-- The two rows that index a key which had no back-reference.
abbrev pub index_rows : (ℕ → Bytes) → ℕ → EvictionPolicy → Bytes → List IndexChange
index_rows format_hour now policy k =
    set_index (entry_at format_hour now policy k) []
    ∷ set_index (backref_of policy k) (entry_at format_hour now policy k)
    ∷ []

stage-index_rows :
    (format_hour : ℕ → Bytes) (now : ℕ) (policy : EvictionPolicy) (reads : Bool) (k : Bytes)
    (s : Store)
    → lookup (backref_of policy k) s.index ≡ none
    → stage_backfill_entry format_hour now policy reads k s ≡ index_rows format_hour now policy k
unfolding stage_backfill_entry write_fifo_index_entry
stage-index_rows format_hour now fifo true k s h = rw h refl
stage-index_rows format_hour now fifo false k s h = refl
stage-index_rows format_hour now lru reads k s h = refl

module _ (u : Reconciling) where
  abbrev pub entry_rows : Bytes → List IndexChange
  entry_rows k = index_rows u.format_hour u.now u.policy k

  pub stage_backfill_entry-eq :
      (reads : Bool) (k : Bytes) (s : Store)
      → lookup (backref_of u.policy k) s.index ≡ none
      → stage_backfill_entry u.format_hour u.now u.policy reads k s ≡ entry_rows k
  stage_backfill_entry-eq reads k s h = stage-index_rows u.format_hour u.now u.policy reads k s h

  pub Leaves-entry_rows :
      (j k : Bytes) → bytes_eq j k ≡ false → Leaves (backref_of u.policy j) (entry_rows k)
  Leaves-entry_rows j k h =
      (backref_of-entry_at u.format_hour u.now u.policy j k, (backref_of-ne u.policy j k h, tt))

  pub lookup-entry_rows :
      (k : Bytes) (m : List (Bytes × Bytes))
      → lookup (backref_of u.policy k) (change_index (entry_rows k) m) ≡ some (fresh_entry u k)
  lookup-entry_rows k m =
      lookup-insert (backref_of u.policy k) (backref_of u.policy k) (fresh_entry u k)
        (insert (fresh_entry u k) [] m)
      ∙ rw (bytes_eq_refl (backref_of u.policy k)) refl
