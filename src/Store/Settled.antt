-- ===== src/Store/Settled.antt =====
-- storage/storage.go: what a Put and a DeleteKey leave, on success and on every error.
use mathlib.Core.Path.{ap₂}
use mathlib.Core.List.{append-nil}
use ocache.Base.{
  Bool, Bytes, List, Option, [], ap, arith, bytes_eq, bytes_eq_refl, false, inl, inr, is_empty,
  length, none, refl, some, suc, sym, true, zero, ℕ, ◌*◌, ◌++◌, ◌+◌, ◌/◌, ◌<◌, ◌==◌, ◌^◌, ◌∙◌, ◌∷◌,
  ◌≡◌, ◌≢◌, ◌⊎◌,
}
use ocache.Base.Int.{pos, ℤ, ◌+ℤ◌, ◌-ℤ◌}
use ocache.Base.Assoc.{lookup, lookup-insert, lookup-remove}
use ocache.Merge.Row.{ValueMessage, inline, raw_file}
use ocache.Merge.Codec.{Codec}
use ocache.Segment.Format.{to_int64}
use ocache.Cas.Io.{Settings}
use ocache.Cas.Put.{written}
use ocache.Wire.Proto.{Protowire}
use ocache.Wire.Extract.{CleanupFields}
use ocache.Store.Errors.{RocksError, StorageError, map_rocksdb_error}
use ocache.Store.State.{
  Batch, Store, dead_file, decode_row, segment_credit, set_row, size_of,
  stage_eviction_index_deletes, write_batch,
}
use ocache.Store.Write.{PlainIo, PutResult, delete_key, remove_row}

-- What a replaced or deleted value gives back: a raw file is queued, the dead bytes of a segment are
-- credited to it, and any other value has nothing to give.
abbrev pub GivenBack : Option CleanupFields → List (Bytes × ℤ) → List Bytes → Type 0
GivenBack none credits files = (credits ≡ []) × (files ≡ [])
GivenBack (some f) credits files =
    (f.value_type ≡ 1 → (credits ≡ []) × (files ≡ f.raw_file_path ∷ []))
    × (f.value_type ≡ 2
        → is_empty f.segment_path ≡ false
        → (credits ≡ (f.segment_path, to_int64 f.value_length) ∷ []) × (files ≡ []))
    × (f.value_type ≢ 1
        → (f.value_type ≢ 2) ⊎ (is_empty f.segment_path ≡ true)
        → (credits ≡ []) × (files ≡ []))

given_back : (prev : Option CleanupFields) → GivenBack prev (segment_credit prev) (dead_file prev)
unfolding segment_credit dead_file
given_back none = (refl, refl)
given_back (some f) = (
  λ raw. rw raw (refl, refl),
  λ seg some_path. rw (seg, some_path) (refl, refl),
  λ not_raw rest.
      let other : (f.value_type == 1) ≡ false = ground arith in
      elim rest [
        | inl not_segment ↦
            let third : (f.value_type == 2) ≡ false = ground arith in rw (other, third) (refl, refl)
        | inr no_path ↦ (ground arith, rw other refl)
      ],
)

-- The bytes that a value counts for in the total.
abbrev pub held : Option CleanupFields → ℤ
held none = pos 0
held (some f) = to_int64 f.value_length

-- Only the key's row changed, and what it held was given back once.
abbrev pub Replaced : Bytes → Option Bytes → Option CleanupFields → Store → Store → Type 0
Replaced key row prev s s' =
    (lookup key s'.rows ≡ row)
    × ((j : Bytes) → bytes_eq j key ≡ false → lookup j s'.rows ≡ lookup j s.rows)
    × ((credits : List (Bytes × ℤ)) × (files : List Bytes) × GivenBack prev credits files
        × (s'.credits ≡ s.credits ++ credits)
        × (s'.queued ≡ s.queued ++ files))

-- No row changed, and only these files were queued.
abbrev pub Kept : List Bytes → Store → Store → Type 0
Kept files s s' =
    (s'.rows ≡ s.rows)
    × (s'.index ≡ s.index)
    × (s'.credits ≡ s.credits)
    × (s'.queued ≡ s.queued ++ files)

write_batch-Replaced :
    (key : Bytes) (batch : Batch) (prev : Option CleanupFields) (s t : Store)
    → t.rows ≡ s.rows
    → t.credits ≡ s.credits
    → t.queued ≡ s.queued
    → batch.batch_credits ≡ segment_credit prev
    → (n : ℤ)
    → Replaced key batch.row prev s (record (write_batch key batch t) {
      queued = (write_batch key batch t).queued ++ dead_file prev;
      total_size = n;
    })
write_batch-Replaced key batch prev s t same_rows same_credits same_queue credited n =
    elim batch.row
      as (λ r.
        (lookup key (set_row key r t.rows) ≡ r)
        × ((j : Bytes) → bytes_eq j key ≡ false → lookup j (set_row key r t.rows) ≡ lookup j s.rows)
        × ((credits : List (Bytes × ℤ)) × (files : List Bytes) × GivenBack prev credits files
            × (t.credits ++ batch.batch_credits ≡ s.credits ++ credits)
            × (t.queued ++ dead_file prev ≡ s.queued ++ files))) [
              | none ↦ (
                lookup-remove key key t.rows ∙ rw (bytes_eq_refl key) refl,
                λ j other. lookup-remove j key t.rows ∙ rw other (ap (lookup j) same_rows),
                (
                  segment_credit prev,
                  dead_file prev,
                  given_back prev,
                  ap₂ (◌++◌) same_credits credited,
                  ap (◌++ dead_file prev) same_queue,
                ),
              )
              | some b ↦ (
                lookup-insert key key b t.rows ∙ rw (bytes_eq_refl key) refl,
                λ j other. lookup-insert j key b t.rows ∙ rw other (ap (lookup j) same_rows),
                (
                  segment_credit prev,
                  dead_file prev,
                  given_back prev,
                  ap₂ (◌++◌) same_credits credited,
                  ap (◌++ dead_file prev) same_queue,
                ),
              )
            ]

module _ (codec : Codec) (pw : Protowire) (format_hour : ℕ → Bytes) (cfg : Settings) (key : Bytes)
    (s : Store) where
  -- The fields of the row that the key had; a read that fails shows none.
  abbrev pub Found : Bool → Option CleanupFields → Type 0
  Found true prev = prev ≡ decode_row pw (lookup key s.rows)
  Found false prev = prev ≡ none

  -- On success the row is that of the message, the old value is given back and the total follows the
  -- lengths; on an error nothing but the files is left.
  abbrev pub Stored : PlainIo → ValueMessage → List Bytes → Option StorageError → Store → Type 0
  Stored io vm files (some e) s' = Kept files s s' × (s'.total_size ≡ s.total_size)
  Stored io vm files none s' =
      (val : Bytes) × (codec.marshal vm ≡ some val)
      × ((prev : Option CleanupFields) × Found io.reads prev
          × Replaced key (some val) prev s s'
          × (s'.total_size ≡ s.total_size +ℤ (vm.value_length -ℤ held prev)))

  -- Without a lifetime a row does not expire; with one whose nanoseconds fit an int64 it expires so many
  -- seconds after the clock's second. A ttl of 0 stands for the default one.
  abbrev pub Lasts : ℕ → ℕ → ℤ → Type 0
  Lasts now zero e = (e ≡ pos 0)
  Lasts now (suc t) e = suc t * 1_000_000_000 < 2 ^ 63 → e ≡ pos (now / 1_000_000_000 + suc t)

  abbrev pub lifetime : ℕ → ℕ
  lifetime zero = cfg.default_ttl
  lifetime (suc n) = suc n

  -- What the row of a Put says of its value.
  abbrev pub Describes : PlainIo → ℕ → ValueMessage → List Bytes → Type 0
  Describes io ttl vm files =
      Lasts io.now (lifetime ttl) vm.expiry
      × (((vm.value_type ≡ inline)
            × (vm.body ≡ io.body)
            × (vm.value_length ≡ pos (length io.body))
            × (files ≡ []))
          ⊎ ((vm.value_type ≡ raw_file)
              × (io.spill ≡ written vm.raw_file_path vm.checksum vm.value_length)
              × (files ≡ vm.raw_file_path ∷ [])))

  abbrev pub PutSettled : PlainIo → ℕ → PutResult → Type 0
  PutSettled io ttl r =
      ((why : StorageError) × (r.error ≡ some why) × (r.left ≡ s))
      ⊎ ((vm : ValueMessage) × (files : List Bytes) × Describes io ttl vm files
          × Stored io vm files r.error r.left)

  abbrev Removed : Option CleanupFields → Option StorageError → Store → Type 0
  Removed prev (some e) s' = Kept [] s s'
  Removed prev none s' = Replaced key none prev s s' × (s'.total_size ≡ s.total_size -ℤ held prev)

  remove_row-Removed :
      (backref_reads : Bool) (commit : Option RocksError) (prev : Option CleanupFields)
      → Removed prev
          (remove_row codec pw format_hour cfg backref_reads commit key prev s).error
          (remove_row codec pw format_hour cfg backref_reads commit key prev s).left
  unfolding remove_row
  remove_row-Removed backref_reads (some e) prev = (refl, refl, refl, sym (append-nil s.queued))
  remove_row-Removed backref_reads none prev = (
    write_batch-Replaced key
        (record {
          row = none;
          batch_credits = segment_credit prev;
          changes = stage_eviction_index_deletes cfg.eviction_policy backref_reads key s;
        })
        prev s (record s { total_size = s.total_size -ℤ size_of prev }) refl refl refl refl
        (s.total_size -ℤ size_of prev),
    refl,
  )

  abbrev pub Deleted : Option Bytes → Option StorageError → Store → Type 0
  Deleted row (some e) s' = Kept [] s s'
  Deleted none none s' = s' ≡ s
  Deleted (some b) none s' =
      Replaced key none (decode_row pw (some b)) s s'
      × (s'.total_size ≡ s.total_size -ℤ held (decode_row pw (some b)))

  removed :
      (b : Bytes) (backref_reads : Bool) (commit : Option RocksError)
      → Deleted
          (some b)
          (remove_row codec pw format_hour cfg backref_reads commit key
            (decode_row pw (some b))
            s).error
          (remove_row codec pw format_hour cfg backref_reads commit key
            (decode_row pw (some b))
            s).left
  unfolding remove_row
  removed b backref_reads (some e) =
      remove_row-Removed backref_reads (some e) (decode_row pw (some b))
  removed b backref_reads none = remove_row-Removed backref_reads none (decode_row pw (some b))

  -- A DeleteKey that succeeds changes nothing where the key has no row; where it has one, the key has none
  -- afterwards, what the row held is given back once (the dead bytes of a segment credited to it, a raw file
  -- queued, nothing else) and the total falls by its length. On an error of the read or of the commit no row, index entry, credit or file changes.
  pub delete_key-Deleted :
      (read : Option RocksError) (backref_reads : Bool) (commit : Option RocksError)
      → Deleted
          (lookup key s.rows)
          (delete_key codec pw format_hour cfg read backref_reads commit key s).error
          (delete_key codec pw format_hour cfg read backref_reads commit key s).left
  unfolding delete_key
  delete_key-Deleted (some e) backref_reads commit =
      elim (lookup key s.rows) as (λ o. Deleted o (some (map_rocksdb_error e)) s) [
        | none ↦ (refl, refl, refl, sym (append-nil s.queued))
        | some b ↦ (refl, refl, refl, sym (append-nil s.queued))
      ]
  delete_key-Deleted none backref_reads commit =
      let outcome : Option Bytes → PutResult = λ o. elim o [
        | none ↦ record { error = none; left = s }
        | some b ↦
            remove_row codec pw format_hour cfg backref_reads commit key (decode_row pw (some b)) s
      ] in
      elim (lookup key s.rows) as (λ o. Deleted o (outcome o).error (outcome o).left) [
        | none ↦ refl
        | some b ↦ removed b backref_reads commit
      ]
