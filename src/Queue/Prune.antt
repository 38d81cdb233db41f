-- ===== src/Queue/Prune.antt =====
-- storage/deletion/queue.go: pruning drops the rows of files that are gone only.

use ocache.Base.{
  Bool, Bool-cases, Bytes, List, Option-cases, [], arith, bytes_eq, bytes_eq_iff, false, inl, inr,
  leb, length, refl, some, subst, sym, true, ◌&&◌, ◌++◌, ◌∷◌, ◌≡◌,
}
use ocache.Base.Int.{ltb_ℤ, pos, ℤ}
use ocache.Keys.Format.{parse_deletion_queue_key}
use ocache.Queue.Process.{
  Op, Rows, apply_op, delete, prune_entry, prune_old_entries, put, write_batch,
}

-- The batch deletes keys, and not this one.
abbrev pub Spares : Bytes → List Op → Type 0
Spares key [] = Unit {0}
Spares key (delete k ∷ ops) = (bytes_eq k key ≡ false) × Spares key ops
Spares key (put k ∷ ops) = Spares key ops

Spares-append :
    (key : Bytes) (xs ys : List Op) → Spares key xs → Spares key ys → Spares key (xs ++ ys)
Spares-append key [] ys h h' = h'
Spares-append key (delete k ∷ xs) ys h h' = (h.0, Spares-append key xs ys h.1 h')
Spares-append key (put k ∷ xs) ys h h' = Spares-append key xs ys h h'

write_batch-Spares :
    (key : Bytes) (ops : List Op) (rows : Rows)
    → Spares key ops
    → rows key ≡ true
    → write_batch ops rows key ≡ true
unfolding write_batch
write_batch-Spares key [] rows h here = here
write_batch-Spares key (delete k ∷ ops) rows h here =
    write_batch-Spares key ops (apply_op (delete k) rows) h.1 (simp h.0 here)
write_batch-Spares key (put k ∷ ops) rows h here =
    write_batch-Spares key ops (apply_op (put k) rows) h (ground arith)

young : (a b : Bool) → a && (b && false) ≡ false
young true true = refl
young true false = refl
young false b = refl

module _ (cutoff : ℤ) (missing : Bytes → Bool) (key path : Bytes) (ts : ℤ) where
  prune_entry-Spares :
      parse_deletion_queue_key key ≡ some (ts, path)
      → missing path ≡ false
      → (key' : Bytes) → Spares key (prune_entry cutoff missing key')
  unfolding prune_entry
  prune_entry-Spares named present key' = elim (Bool-cases (bytes_eq key' key)) [
    | inl same ↦
        let k : key ≡ key' = sym ((bytes_eq_iff key' key).0 same) in
        subst (λ j. Spares key (prune_entry cutoff missing j)) k
          (rw (named, prune_entry) (simp (present, young (ltb_ℤ (pos 0) ts) (ltb_ℤ ts cutoff)) tt))
    | inr other ↦ elim (Option-cases (parse_deletion_queue_key key')) [
      | inl e ↦ rw (e, prune_entry) tt
      | inr ((ts', path'), e) ↦
          elim (Bool-cases (ltb_ℤ (pos 0) ts' && (ltb_ℤ ts' cutoff && missing path'))) [
            | inl old ↦ rw (e, prune_entry) (simp old (other, tt))
            | inr young ↦ rw (e, prune_entry) (simp young tt)
          ]
    ]
  ]

  -- Pruning keeps the row of a file that is still there, however old the row is, whichever batches are
  -- written, and when a shutdown cuts it short.
  pub prune_old_entries-keeps :
      parse_deletion_queue_key key ≡ some (ts, path)
      → missing path ≡ false
      → (last : Bool) (scanned : List (Bool × (Bool × Bytes))) (batch : List Op) (rows : Rows)
      → Spares key batch
      → rows key ≡ true
      → prune_old_entries cutoff missing last scanned batch rows key ≡ true
  unfolding prune_old_entries
  prune_old_entries-keeps named present last [] batch rows spares here = elim (Bool-cases last) [
    | inl yea ↦ simp yea (write_batch-Spares key batch rows spares here)
    | inr nay ↦ simp nay here
  ]
  prune_old_entries-keeps named present last ((closed, (written, key')) ∷ rest) batch rows spares
        here =
      let staged : List Op = batch ++ prune_entry cutoff missing key' in
      let ok : Spares key staged =
        Spares-append key batch (prune_entry cutoff missing key') spares
          (prune_entry-Spares named present key') in
      let next = prune_old_entries-keeps named present last rest in
      elim (Bool-cases closed) [
        | inl stop ↦ simp stop here
        | inr running ↦ elim (Bool-cases (leb 100 (length staged))) [
          | inr room ↦ simp (running, room) (next staged rows ok here)
          | inl full ↦ elim (Bool-cases written) [
            | inl done ↦
                simp (running, full, done)
                  (next [] (write_batch staged rows) tt
                    (write_batch-Spares key staged rows ok here))
            | inr failed ↦ simp (running, full, failed) (next [] rows tt here)
          ]
        ]
      ]
