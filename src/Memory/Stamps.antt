-- ===== src/Memory/Stamps.antt =====
-- client/memory.go: every operation keeps a MemoryCache well-formed.
use ocache.Base.{Bytes, List, Option, [], arith, if-each, none, some, ℕ, ◌∷◌}
use ocache.Base.Assoc.{lookup, remove}
use ocache.Memory.State.{
  CacheEntry, MemoryCache, Op, Result, admits_locked, delete, delete_if_version, delete_unless,
  do_close, do_delete, do_delete_if_version, do_expire, do_get_with_version, do_put,
  do_put_if_version, drop_entry, expire_entry, get_with_version, is_unexpired, live_locked,
  memory_legacy_version, new_memory_cache, perform, perform_all, put_if_version, refusal, token_of,
}
use ocache.Memory.WellFormed.{
  InRange-remove, InRange-suc, Ok, delete_stamped-Ok, drop-Ok, empty-Ok, put-Ok, put_stamped-Ok,
  remove-none,
}

token_of-Ok : (o : Option ℕ) (m : MemoryCache) → Ok m → Ok (token_of o m).1
unfolding token_of
token_of-Ok (some f) m ok = ok
token_of-Ok none m ok = record {
  started = omega (arith, ok.started);
  stamps = λ k. InRange-suc m.version_counter _ (ok.stamps k);
  fence_stamps = λ k. InRange-suc m.version_counter _ (ok.fence_stamps k);
  expiries = ok.expiries;
  separate = ok.separate;
}

-- An expired or a deleted entry takes its stamp with it.
expire_entry-Ok :
    (now : ℕ) (o : Option CacheEntry) (key : Bytes) (m : MemoryCache)
    → Ok m
    → Ok (expire_entry now o key m)
unfolding expire_entry
expire_entry-Ok now none key m ok = ok
expire_entry-Ok now (some entry) key m ok =
    if-each Ok (is_unexpired now entry.expires_at) ok
      (drop-Ok m key m.fences ok ok.fence_stamps (λ k h. h))

drop_entry-Ok :
    (o : Option CacheEntry) (key : Bytes) (m : MemoryCache) → Ok m → Ok (drop_entry o key m).next
unfolding drop_entry
drop_entry-Ok none key m ok = ok
drop_entry-Ok (some entry) key m ok =
    drop-Ok m key (remove key m.fences) ok
      (λ k. InRange-remove k key m.version_counter m.fences (ok.fence_stamps k))
      (λ k. remove-none k key m.fences)

delete_unless-Ok :
    (o : Option ℕ) (key : Bytes) (m : MemoryCache) → Ok m → Ok (delete_unless o key m).next
unfolding delete_unless
delete_unless-Ok (some cur) key m ok = ok
delete_unless-Ok none key m ok = delete_stamped-Ok m key ok

pub perform-Ok : (op : Op) (m : MemoryCache) → Ok m → Ok (perform op m).next
unfolding get_with_version put_if_version delete_if_version delete
perform-Ok (do_get_with_version now later key) m ok =
    if-each (λ (r : Result). Ok r.next) (live_locked now m key) ok
      (token_of-Ok (lookup key m.fences) m ok)
perform-Ok (do_put_if_version now later write_now key body ttl expected) m ok =
    if-each (λ (r : Result). Ok r.next) (admits_locked now later m key expected).0
      (put_stamped-Ok m write_now key body ttl ok) ok
perform-Ok (do_delete_if_version now later key expected) m ok =
    delete_unless-Ok (refusal now later m key expected) key m ok
perform-Ok (do_put now key body ttl) m ok = put-Ok m now key body ttl ok
perform-Ok (do_delete key) m ok = drop_entry-Ok (lookup key m.entries) key m ok
perform-Ok (do_expire now key) m ok = expire_entry-Ok now (lookup key m.entries) key m ok
perform-Ok do_close m ok = empty-Ok m.version_counter ok.started

perform_all-Ok : (ops : List Op) (m : MemoryCache) → Ok m → Ok (perform_all ops m)
perform_all-Ok [] m ok = ok
perform_all-Ok (op ∷ ops) m ok = perform_all-Ok ops (perform op m).next (perform-Ok op m ok)

-- Whatever the callers do to a new cache, in any order and at any times, the counter has reached every
-- stamp and every fence, all of them are above the version of a plain write, and no key has both an
-- entry and a fence.
pub perform_all-new_memory_cache : (ops : List Op) → Ok (perform_all ops new_memory_cache)
perform_all-new_memory_cache ops =
    perform_all-Ok ops new_memory_cache (empty-Ok memory_legacy_version (omega arith))
