-- ===== src/Evict/Batch.antt =====
-- storage/eviction.go: the batches of an eviction pass, and when it reclaims a file.
use ocache.Base.{
  Bool, Bool-cases, Bytes, List, [], arith, inl, inr, is_empty, leb, length, length-append, refl,
  subst, sym, true, ℕ, ◌++◌, ◌∷◌, ◌≡◌, ◌≤◌, ◌⊎◌,
}
use ocache.Base.Int.{ℤ}
use ocache.Keys.Format.{make_metadata_key}
use ocache.Merge.Row.{ValueMessage}
use ocache.Merge.Codec.{Codec}
use ocache.Evict.Pass.{
  Act, EvictionIndex, Look, Pass, bound_batch, commit, evict_by_index, evict_entries, evict_key,
  new_pass, stage_files, staged, visit, write_failed, wrote,
}
use ocache.Evict.Choice.{AmongLooks, Evictable, evict_entries-induction, visit-Moves}

abbrev pub AmongKeys : Bytes → List Bytes → Type 0
AmongKeys k [] = ⊥
AmongKeys k (x ∷ ks) = (k ≡ x) ⊎ AmongKeys k ks

AmongKeys-grow : (k : Bytes) (ks js : List Bytes) → AmongKeys k ks → AmongKeys k (ks ++ js)
AmongKeys-grow k [] js h = absurd h
AmongKeys-grow k (x ∷ ks) js (inl e) = inl e
AmongKeys-grow k (x ∷ ks) js (inr h) = inr (AmongKeys-grow k ks js h)

AmongKeys-next : (k : Bytes) (ks js : List Bytes) → AmongKeys k (ks ++ k ∷ js)
AmongKeys-next k [] js = inl refl
AmongKeys-next k (x ∷ ks) js = inr (AmongKeys-next k ks js)

abbrev Every : (ValueMessage → Type 0) → List ValueMessage → Type 0
Every P [] = Unit
Every P (vm ∷ vms) = P vm × Every P vms

Every-snoc :
    (P : ValueMessage → Type 0) (vms : List ValueMessage) (vm : ValueMessage)
    → Every P vms
    → P vm
    → Every P (vms ++ vm ∷ [])
Every-snoc P [] vm h g = (g, tt)
Every-snoc P (x ∷ vms) vm h g = (h.0, Every-snoc P vms vm h.1 g)

Every-map :
    (P Q : ValueMessage → Type 0)
    → ((vm : ValueMessage) → P vm → Q vm)
    → (vms : List ValueMessage) → Every P vms
    → Every Q vms
Every-map P Q f [] h = tt
Every-map P Q f (x ∷ vms) h = (f x h.0, Every-map P Q f vms h.1)

is_empty-length {ℓ} : {A : Type ℓ} (xs : List A) → is_empty xs ≡ true → length xs ≤ 0
is_empty-length [] h = omega arith
is_empty-length (x ∷ xs) h = ground arith

module _ (idx : EvictionIndex) (c : Codec) (looks : List Look) where
  -- The batch deletes the row of a key that an entry of the index led to, and that held this value.
  abbrev pub Deletes : List Bytes → ValueMessage → Type 0
  Deletes ks vm =
      (l : Look) × (key : Bytes) × AmongLooks l looks
      × Evictable idx c l key vm
      × AmongKeys (make_metadata_key key) ks

  -- The last batch before the value's file was reclaimed went through and deleted the value's row.
  abbrev pub BehindWrite : ValueMessage → List Act → Type 0
  BehindWrite vm [] = ⊥
  BehindWrite vm (wrote ks ∷ log) = Deletes ks vm
  BehindWrite vm (write_failed ks ∷ log) = ⊥
  BehindWrite vm (staged other ∷ log) = BehindWrite vm log

  -- A file is reclaimed only behind the batch that deleted its row and went through, and no batch has over
  -- 1002 keys.
  abbrev pub Orderly : List Act → Type 0
  Orderly [] = Unit {0}
  Orderly (wrote ks ∷ log) = (length ks ≤ 1002) × Orderly log
  Orderly (write_failed ks ∷ log) = (length ks ≤ 1002) × Orderly log
  Orderly (staged vm ∷ log) = BehindWrite vm log × Orderly log

  abbrev Within : ℕ → Pass → Type 0
  Within n p =
      (length p.batch ≤ n) × Orderly p.log × Every (λ vm. Deletes p.batch vm) p.pending_files

  stage_files-Orderly :
      (vms : List ValueMessage) (log : List Act)
      → Every (λ vm. BehindWrite vm log) vms
      → Orderly log
      → Orderly (stage_files vms log)
  stage_files-Orderly [] log b o = o
  stage_files-Orderly (vm ∷ vms) log b o = stage_files-Orderly vms (staged vm ∷ log) b.1 (b.0, o)

  commit-Within : (written : Bool) (p : Pass) → Within 1002 p → Within 0 (commit written p)
  unfolding commit
  commit-Within written p v = elim (Bool-cases (is_empty p.batch)) [
    | inl nil ↦ rw (nil, commit) (is_empty-length p.batch nil, v.1, v.2)
    | inr full ↦ elim (Bool-cases written) [
      | inr failed ↦ simp (full, failed) (omega arith, (v.0, v.1), tt)
      | inl done ↦
          simp (full, done)
            (
              omega arith,
              stage_files-Orderly p.pending_files (wrote p.batch ∷ p.log) (v.2) (v.0, v.1),
              tt,
            )
    ]
  ]

  bound_batch-Within :
      (written : Bool) (p : Pass) → Within 1002 p → Within 999 (bound_batch written p)
  unfolding bound_batch
  bound_batch-Within written p v = elim (Bool-cases (leb 1000 (length p.batch))) [
    | inl full ↦ let w = commit-Within written p v in simp full (omega (arith, w.0), w.1, w.2)
    | inr small ↦ simp small (ground arith, v.1, v.2)
  ]

  grown :
      (p : Pass) (ks : List Bytes)
      → Every (λ vm. Deletes p.batch vm) p.pending_files
      → Every (λ vm. Deletes (p.batch ++ ks) vm) p.pending_files
  grown p ks h =
      Every-map (λ vm. Deletes p.batch vm) (λ vm. Deletes (p.batch ++ ks) vm)
        (λ vm (l, key, among, own, at).
          (l, key, among, own, AmongKeys-grow (make_metadata_key key) p.batch ks at))
        p.pending_files h

  visit-Within :
      (l : Look) (p : Pass) → AmongLooks l looks → Within 999 p → Within 1002 (visit idx c l p)
  unfolding evict_key
  visit-Within l p among v = elim (visit-Moves idx c l p) [
    | inl e ↦ subst (Within 1002) (sym e) (omega (arith, v.0), v.1, v.2)
    | inr (inl (stray, e)) ↦ subst (Within 1002) (sym e) (
      omega (arith, v.0, length-append p.batch (l.entry ∷ [])),
      v.1,
      grown p (l.entry ∷ []) (v.2),
    )
    | inr (inr (inl (key, bad, e))) ↦ subst (Within 1002) (sym e) (
      three (make_metadata_key key) (idx.backref_key key),
      v.1,
      grown p (make_metadata_key key ∷ l.entry ∷ idx.backref_key key ∷ []) (v.2),
    )
    | inr (inr (inr (key, vm, own, e))) ↦
        let ks : List Bytes = make_metadata_key key ∷ l.entry ∷ idx.backref_key key ∷ [] in
        subst (Within 1002) (sym e) (
          three (make_metadata_key key) (idx.backref_key key),
          v.1,
          Every-snoc (λ x. Deletes (p.batch ++ ks) x) p.pending_files vm (grown p ks (v.2))
              (l, key, among, own, AmongKeys-next (make_metadata_key key) p.batch _),
        )
  ]
    where
      three : (meta backref : Bytes) → length (p.batch ++ meta ∷ l.entry ∷ backref ∷ []) ≤ 1002
      three meta backref = omega (arith, v.0, length-append p.batch (meta ∷ l.entry ∷ backref ∷ []))

-- A pass reclaims a file only behind a batch that went through and that deleted the row of the file's own
-- key, as an entry of the index led to it, with no failed batch in between; no batch has over 1002 keys; and
-- when the pass returns, no batch is left unwritten.
pub evict_by_index-Orderly :
    (idx : EvictionIndex) (c : Codec) (target : ℤ) (looks : List Look) (written : Bool)
    → let p = (evict_by_index idx c target looks written).1.1 in
      Orderly idx c looks p.log × (length p.batch ≤ 0)
unfolding evict_by_index
evict_by_index-Orderly idx c target looks written =
    let w = commit-Within idx c looks written (evict_entries idx c target looks new_pass) (
      evict_entries-induction idx c (Within idx c looks 1002) (Within idx c looks 999)
        (λ l. AmongLooks l looks) (bound_batch-Within idx c looks)
        (λ l p among h. visit-Within idx c looks l p among h)
        (λ p h. (omega (arith, h.0), h.1, h.2)) target looks new_pass (λ l h. h)
        (omega arith, tt, tt)) in
    (w.1, w.0)
