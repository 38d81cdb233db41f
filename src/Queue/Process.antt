-- ===== src/Queue/Process.antt =====
-- storage/deletion/queue.go: ProcessBatch and pruneOldEntries. The rows of the queue come in the order of
-- their keys, each with the answer of the close channel; locks and the file system answer through an
-- argument; `order` is the order in which Go ranges over a map.
use ocache.Base.{
  Bool, Bytes, List, Option, [], bytes_eq, false, if◌then◌else◌, leb, length, none, some, true, ℕ,
  ◌&&◌, ◌++◌, ◌||◌, ◌∷◌,
}
use ocache.Base.Int.{ltb_ℤ, pos, ℤ}
use ocache.Keys.Format.{make_deletion_queue_key, parse_deletion_queue_key}

-- A file's lock taken by another, and what os.Remove answers otherwise.
pub data Attempt : Type 0 where
  locked removed not_exist remove_failed : Attempt

unfoldable pub try_delete : Attempt → Bool
try_delete locked = false
try_delete removed = true
try_delete not_exist = true
try_delete remove_failed = false

-- The file paths seen, each with its earliest key.
abbrev pub Seen : Type 0
Seen = List (Bytes × Bytes)

abbrev pub has_seen : Bytes → Seen → Bool
has_seen path [] = false
has_seen path ((p, key) ∷ seen) = bytes_eq p path || has_seen path seen

-- Not yet due.
unfoldable pub is_ahead : ℕ → Bytes → Bool
is_ahead now key = elim (parse_deletion_queue_key key) [
  | none ↦ false
  | some (ts, path) ↦ ltb_ℤ (pos now) ts
]

unfoldable pub collect : Bytes → Seen → Seen
unfolding parse_deletion_queue_key bytes_eq
collect key seen = elim (parse_deletion_queue_key key) [
  | none ↦ seen
  | some (ts, path) ↦ if has_seen path seen then seen else seen ++ (path, key) ∷ []
]

-- `none` is a shutdown. The count of the loop is the length of `seen`.
unfoldable pub scan_due : ℕ → ℕ → Seen → List (Bool × Bytes) → Option Seen
unfolding is_ahead collect
scan_due size now seen [] = some seen
scan_due size now seen ((closed, key) ∷ rows) =
    let rest = scan_due size now (collect key seen) rows in
    if leb size (length seen)
    then some seen
    else if closed
    then none
    else if is_ahead now key
    then some seen
    else rest

pub data Op : Type 0 where
  delete put : Bytes → Op

-- A failed deletion is queued again, `retry_at` being the current time with the retry delay added.
unfoldable pub settle_entry : (Bytes → Attempt) → (Bytes → ℕ) → Bytes × Bytes → List Op
unfolding try_delete make_deletion_queue_key
settle_entry attempt retry_at (path, key) =
    if try_delete (attempt path)
    then delete key ∷ []
    else delete key ∷ put (make_deletion_queue_key (retry_at path) path) ∷ []

unfoldable pub settle_entries : (Bytes → Attempt) → (Bytes → ℕ) → Seen → List Op
unfolding settle_entry
settle_entries attempt retry_at [] = []
settle_entries attempt retry_at (e ∷ seen) =
    settle_entry attempt retry_at e ++ settle_entries attempt retry_at seen

-- The keys that the database holds.
abbrev pub Rows : Type 0
Rows = Bytes → Bool

abbrev pub apply_op : Op → Rows → Rows
apply_op (delete k) keys j = if bytes_eq k j then false else keys j
apply_op (put k) keys j = if bytes_eq k j then true else keys j

unfoldable pub write_batch : List Op → Rows → Rows
unfolding bytes_eq
write_batch [] keys = keys
write_batch (op ∷ ops) keys = write_batch ops (apply_op op keys)

unfoldable pub process_batch :
    ℕ
    → ℕ
    → (Bytes → Attempt)
    → (Bytes → ℕ)
    → (Seen → Seen)
    → Bool
    → List (Bool × Bytes)
    → Rows
    → Rows
unfolding scan_due settle_entries write_batch
process_batch size now attempt retry_at order written rows keys = elim (scan_due size now [] rows) [
  | none ↦ keys
  | some seen ↦
      if written then write_batch (settle_entries attempt retry_at (order seen)) keys else keys
]

-- What pruneOldEntries stages for a row; `missing` is os.Stat's answer that the file is not there.
unfoldable pub prune_entry : ℤ → (Bytes → Bool) → Bytes → List Op
unfolding parse_deletion_queue_key
prune_entry cutoff missing key = elim (parse_deletion_queue_key key) [
  | none ↦ []
  | some (ts, path) ↦
      if ltb_ℤ (pos 0) ts && (ltb_ℤ ts cutoff && missing path) then delete key ∷ [] else []
]

-- Each row comes with the answer of the close channel and that of the write, should the batch be full.
unfoldable pub prune_old_entries :
    ℤ → (Bytes → Bool) → Bool → List (Bool × (Bool × Bytes)) → List Op → Rows → Rows
unfolding prune_entry write_batch
prune_old_entries cutoff missing last [] batch rows = if last then write_batch batch rows else rows
prune_old_entries cutoff missing last ((closed, (written, key)) ∷ rest) batch rows =
    let staged : List Op = batch ++ prune_entry cutoff missing key in
    let full : Bool = leb 100 (length staged) in
    let later =
      prune_old_entries cutoff missing last rest (if full then [] else staged)
        (if full && written then write_batch staged rows else rows) in
    if closed then rows else later
