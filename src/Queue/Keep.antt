-- ===== src/Queue/Keep.antt =====
-- storage/deletion/queue.go: no file is forgotten.
use mathlib.Core.Option.{some-injective}
use ocache.Base.{
  Bool, Bool-cases, Bytes, List, Option, Option-cases, [], ap, arith, bytes_eq, bytes_eq_iff,
  bytes_eq_refl, false, inl, inr, leb, length, none, refl, some, subst, sym, true, ℕ, ◌++◌, ◌<◌,
  ◌∙◌, ◌∷◌, ◌≡◌, ◌⊎◌,
}
use ocache.Base.Int.{pos, ℤ}
use ocache.Keys.Text.{int64_limit}
use ocache.Keys.Format.{make_deletion_queue_key, parse_deletion_queue_key}
use ocache.Keys.RoundTrip.{parse_deletion_queue_key-make}
use ocache.Queue.Process.{
  Attempt, Op, Rows, Seen, apply_op, collect, has_seen, is_ahead, locked, not_exist, process_batch,
  remove_failed, removed, scan_due, settle_entries, settle_entry, try_delete, write_batch,
}

-- Each key seen names its path.
abbrev pub Names : Bytes × Bytes → Type 0
Names (path, key) = (ts : ℤ) × (parse_deletion_queue_key key ≡ some (ts, path))

abbrev pub AllNames : Seen → Type 0
AllNames [] = Unit {0}
AllNames (e ∷ seen) = Names e × AllNames seen

AllNames-snoc :
    (seen : Seen) (e : Bytes × Bytes) → AllNames seen → Names e → AllNames (seen ++ e ∷ [])
AllNames-snoc [] e all n = (n, tt)
AllNames-snoc (x ∷ seen) e all n = (all.0, AllNames-snoc seen e all.1 n)

collect-AllNames : (key : Bytes) (seen : Seen) → AllNames seen → AllNames (collect key seen)
unfolding collect
collect-AllNames key seen all = elim (Option-cases (parse_deletion_queue_key key)) [
  | inl e ↦ rw (e, collect) all
  | inr ((ts, path), e) ↦ elim (Bool-cases (has_seen path seen)) [
    | inl old ↦ rw (e, collect) (simp old all)
    | inr new ↦ rw (e, collect) (simp new (AllNames-snoc seen (path, key) all (ts, e)))
  ]
]

abbrev AllNamesIn : Option Seen → Type 0
AllNamesIn none = Unit {0}
AllNamesIn (some seen) = AllNames seen

scan_due-AllNames :
    (size now : ℕ) (seen : Seen) (rows : List (Bool × Bytes))
    → AllNames seen
    → AllNamesIn (scan_due size now seen rows)
unfolding scan_due
scan_due-AllNames size now seen [] all = all
scan_due-AllNames size now seen ((closed, key) ∷ rows) all =
    let later =
      scan_due-AllNames size now (collect key seen) rows (collect-AllNames key seen all) in
    elim (Bool-cases (leb size (length seen))) [
      | inl full ↦ simp full all
      | inr room ↦ elim (Bool-cases closed) [
        | inl stop ↦ simp (room, stop) tt
        | inr running ↦ elim (Bool-cases (is_ahead now key)) [
          | inl ahead ↦ simp (room, running, ahead) all
          | inr due ↦ simp (room, running, due) later
        ]
      ]
    ]

module _ (attempt : Bytes → Attempt) (retry_at : Bytes → ℕ) (key path : Bytes) where
  abbrev pub retry_key : Bytes
  retry_key = make_deletion_queue_key (retry_at path) path

  -- os.Remove took the file away or found none.
  abbrev pub FileGone : Type 0
  FileGone = (attempt path ≡ removed) ⊎ (attempt path ≡ not_exist)

  try_delete-FileGone : (a : Attempt) → try_delete a ≡ true → (a ≡ removed) ⊎ (a ≡ not_exist)
  unfolding try_delete
  try_delete-FileGone locked h = absurd (cc)
  try_delete-FileGone removed h = inl refl
  try_delete-FileGone not_exist h = inr refl
  try_delete-FileGone remove_failed h = absurd (cc)

  -- The row is there, or its file is gone, or the file is queued again.
  abbrev pub Kept : Rows → Type 0
  Kept rows = (rows key ≡ true) ⊎ FileGone ⊎ (rows retry_key ≡ true)

  write_batch-append :
      (xs ys : List Op) (rows : Rows)
      → write_batch (xs ++ ys) rows ≡ write_batch ys (write_batch xs rows)
  unfolding write_batch
  write_batch-append [] ys rows = refl
  write_batch-append (x ∷ xs) ys rows = write_batch-append xs ys (apply_op x rows)

  -- A key of another file is neither the row nor its successor.
  differ :
      (ts ts' : ℤ) (path' key' key'' : Bytes)
      → parse_deletion_queue_key key' ≡ some (ts, path')
      → parse_deletion_queue_key key'' ≡ some (ts', path)
      → bytes_eq path' path ≡ false
      → bytes_eq key' key'' ≡ false
  differ ts ts' path' key' key'' e e' n = elim (Bool-cases (bytes_eq key' key'')) [
    | inr other ↦ other
    | inl same ↦
        let k : key' ≡ key'' = (bytes_eq_iff key' key'').0 same in
        let q : some (ts, path') ≡ some (ts', path) = sym e ∙ ap parse_deletion_queue_key k ∙ e' in
        let p : path' ≡ path = ap (λ r. r.1) (some-injective (ts, path') (ts', path) q) in
        let t : bytes_eq path' path ≡ true = (bytes_eq_iff path' path).1 p in cc
  ]

  settle_entry-own :
      (key' : Bytes) (rows : Rows)
      → Kept (write_batch (settle_entry attempt retry_at (path, key')) rows)
  unfolding settle_entry write_batch
  settle_entry-own key' rows = elim (Bool-cases (try_delete (attempt path))) [
    | inl gone ↦ inr (inl (try_delete-FileGone (attempt path) gone))
    | inr fails ↦ inr (inr (simp (fails, bytes_eq_refl retry_key)))
  ]

  settle_entry-other :
      (path' key' : Bytes) (rows : Rows)
      → bytes_eq key' key ≡ false
      → bytes_eq key' retry_key ≡ false
      → Kept rows
      → Kept (write_batch (settle_entry attempt retry_at (path', key')) rows)
  unfolding settle_entry write_batch
  settle_entry-other path' key' rows k r kept = elim kept [
    | inl here ↦ inl (ground arith)
    | inr (inl gone) ↦ inr (inl gone)
    | inr (inr again) ↦ inr (inr (ground arith))
  ]

  module _ (ts : ℤ) (bound : retry_at path < int64_limit)
      (named : parse_deletion_queue_key key ≡ some (ts, path)) where
    settle_entry-Kept :
        (e : Bytes × Bytes)
        → Names e
        → (rows : Rows) → Kept rows
        → Kept (write_batch (settle_entry attempt retry_at e) rows)
    settle_entry-Kept (path', key') (ts', names) rows kept =
        elim (Bool-cases (bytes_eq path' path)) [
          | inl same ↦
              subst (λ p. Kept (write_batch (settle_entry attempt retry_at (p, key')) rows))
                (sym ((bytes_eq_iff path' path).0 same)) (settle_entry-own key' rows)
          | inr other ↦
              settle_entry-other path' key' rows (differ ts' ts path' key' key names named other)
                (differ ts' (pos (retry_at path)) path' key' retry_key names
                  (parse_deletion_queue_key-make (retry_at path) path bound) other)
                kept
        ]

    settle_entries-Kept :
        (seen : Seen)
        → AllNames seen
        → (rows : Rows) → Kept rows
        → Kept (write_batch (settle_entries attempt retry_at seen) rows)
    unfolding settle_entries
    settle_entries-Kept [] all rows kept = unfold write_batch in kept
    settle_entries-Kept (e ∷ seen) all rows kept =
        subst Kept (sym (write_batch-append (settle_entry attempt retry_at e) _ rows)) (
          settle_entries-Kept seen all.1 (write_batch (settle_entry attempt retry_at e) rows)
            (settle_entry-Kept e all.0 rows kept))

-- No file is forgotten: every row of the queue outlives a batch, unless os.Remove took its file away or
-- found none, or the file is queued again under the time of its retry. So it is for failing writes, a
-- shutdown, several rows of one file, and whatever order the map of files is ranged over. The retry's time
-- is in the range of an int64.
pub process_batch-Kept :
    (size now : ℕ) (attempt : Bytes → Attempt) (retry_at : Bytes → ℕ) (order : Seen → Seen)
    (written : Bool) (scanned : List (Bool × Bytes)) (rows : Rows) (key path : Bytes) (ts : ℤ)
    → ((seen : Seen) → AllNames seen → AllNames (order seen))
    → retry_at path < int64_limit
    → parse_deletion_queue_key key ≡ some (ts, path)
    → rows key ≡ true
    → Kept attempt retry_at key path
        (process_batch size now attempt retry_at order written scanned rows)
unfolding process_batch
process_batch-Kept size now attempt retry_at order written scanned rows key path ts ordered bound
      named here =
    let names = scan_due-AllNames size now [] scanned tt in
    elim (Option-cases (scan_due size now [] scanned)) [
      | inl e ↦ rw (e, process_batch) (inl here)
      | inr (seen, e) ↦
          let all : AllNames seen = subst AllNamesIn e names in
          elim (Bool-cases written) [
            | inr failed ↦ rw (e, process_batch) (simp failed (inl here))
            | inl done ↦
                rw (e, process_batch)
                  (simp done (
                    settle_entries-Kept attempt retry_at key path ts bound named (order seen)
                      (ordered seen all) rows (inl here)))
          ]
    ]
