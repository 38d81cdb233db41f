-- ===== src/Memory/Rows.antt =====
-- client/memory.go against storage/cas.go: the row that the storage layer would hold for each key of a
-- MemoryCache, and the operations on those rows: the conditional ones with storage's own classification and
-- admission, the others by rules of the cache.
use ocache.Base.{Bytes, Option, [], bytes_eq, if◌then◌else◌, none, some, ℕ, ◌+◌, ◌||◌}
use ocache.Base.Int.{eqb_ℤ, ltb_ℤ, pos, ℤ}
use ocache.Base.Assoc.{lookup}
use ocache.Merge.Row.{ValueMessage, tombstone_expiry, zero_message}
use ocache.Cas.State.{CasRowState, cas_absent, cas_admits, cas_classify, cas_fenced, cas_live}
use ocache.Cas.Delete.{delete_refusal}
use ocache.Memory.State.{
  Answer, CacheEntry, MemoryCache, Op, absent, do_close, do_delete, do_delete_if_version, do_expire,
  do_get_with_version, do_put, do_put_if_version, done, entry_expiry, found, not_found, stamped,
  version_mismatch,
}

abbrev pub row_expiry : Option ℕ → ℤ
row_expiry none = pos 0
row_expiry (some t) = pos t

abbrev pub stamp_of : Option ℕ → ℕ
stamp_of none = 0
stamp_of (some v) = v

abbrev pub value_row : Bytes → Option ℕ → Option ℕ → ValueMessage
value_row body expires_at stamp = record zero_message {
  body = body;
  expiry = row_expiry expires_at;
  version = stamp_of stamp;
}

abbrev pub fence_row : ℕ → ValueMessage
fence_row f = record zero_message { expiry = tombstone_expiry; version = f }

abbrev pub row_of : Option CacheEntry → Option ℕ → Option ℕ → Option ValueMessage
row_of (some entry) stamp fence = some (value_row entry.value entry.expires_at stamp)
row_of none stamp (some f) = some (fence_row f)
row_of none stamp none = none

-- The rows of a store and its last stamp.
pub record Store : Type 0 where
  pub rows : Bytes → Option ValueMessage
  pub counter : ℕ

abbrev pub store_of : MemoryCache → Store
store_of m = record {
  rows = λ k. row_of (lookup k m.entries) (lookup k m.versions) (lookup k m.fences);
  counter = m.version_counter;
}

abbrev pub set_row : Bytes → Option ValueMessage → ℕ → Store → Store
set_row key row counter s = record {
  rows = λ k. if bytes_eq k key then row else s.rows k;
  counter = counter;
}

abbrev pub row_body : Option ValueMessage → Bytes
row_body none = []
row_body (some vm) = vm.body

abbrev pub row_answer : CasRowState × ℕ → Store → Bytes → Answer × Store
row_answer (cas_live, cur) s key = (found (row_body (s.rows key)) cur, s)
row_answer (cas_fenced, fence) s key = (absent fence, s)
row_answer (cas_absent, cur) s key = (absent (s.counter + 1), record s { counter = s.counter + 1 })

abbrev pub row_delete : Option ℕ → Bytes → Store → Answer × Store
row_delete (some cur) key s = (version_mismatch cur, s)
row_delete none key s = (done, set_row key (some (fence_row (s.counter + 1))) (s.counter + 1) s)

-- A plain delete of a key with a value row, expired or not. The cache answers not found over a fence and keeps
-- it, where storage's DeleteKey takes the tombstone away.
abbrev pub row_drop : Option ValueMessage → Bytes → Store → Answer × Store
row_drop none key s = (not_found, s)
row_drop (some vm) key s =
    if eqb_ℤ vm.expiry tombstone_expiry
    then (not_found, s)
    else (done, set_row key none s.counter s)

-- The drop of a value row that has expired.
abbrev pub row_expire : ℕ → Option ValueMessage → Bytes → Store → Store
row_expire now none key s = s
row_expire now (some vm) key s =
    if eqb_ℤ vm.expiry tombstone_expiry || (eqb_ℤ vm.expiry (pos 0) || ltb_ℤ (pos now) vm.expiry)
    then s
    else set_row key none s.counter s

-- What an operation does, told by the rows alone.
abbrev pub on_rows : Op → Store → Answer × Store
on_rows (do_get_with_version now later key) s = row_answer (cas_classify now (s.rows key)) s key
on_rows (do_put_if_version now later write_now key body ttl expected) s =
    if cas_admits (cas_classify now (s.rows key)).0 (cas_classify now (s.rows key)).1 expected
    then (
      stamped (s.counter + 1),
      set_row key (some (value_row body (entry_expiry write_now ttl) (some (s.counter + 1))))
          (s.counter + 1) s,
    )
    else (version_mismatch (cas_classify now (s.rows key)).1, s)
on_rows (do_delete_if_version now later key expected) s =
    row_delete
      (delete_refusal (cas_classify now (s.rows key)).0 (cas_classify now (s.rows key)).1 expected)
      key s
on_rows (do_put now key body ttl) s =
    (done, set_row key (some (value_row body (entry_expiry now ttl) none)) s.counter s)
on_rows (do_delete key) s = row_drop (s.rows key) key s
on_rows (do_expire now key) s = (done, row_expire now (s.rows key) key s)
on_rows do_close s = (done, record { rows = λ k. none; counter = s.counter })
