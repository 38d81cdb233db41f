-- ===== src/Tests/Memory.antt =====
-- The in-memory client at concrete inputs.
use ocache.Base.{List, [], bytes_eq, codes, false, refl, some, ◌∷◌, ◌≡◌}
use ocache.Base.Int.{pos}
use ocache.Memory.Refines.{perform-on_rows, report}
use ocache.Base.Assoc.{lookup, remove}
use ocache.Memory.State.{
  MemoryCache, Op, admits_locked, dead_refusal, delete_if_version, delete_unless,
  do_delete_if_version, do_put, do_put_if_version, entry_expiry, fence_allows, get, is_live,
  is_past, is_unexpired, live_locked, new_memory_cache, perform, perform_all, put, put_if_version,
  refusal, stamp_or_legacy, version_mismatch,
}
use ocache.Memory.WellFormed.{Ok}
use ocache.Memory.Stamps.{perform_all-new_memory_cache}
use ocache.Memory.Rows.{on_rows, store_of}
use ocache.Memory.Range.{Cut, bytes, range_end, slice_range, slice_range-Cut}

-- A key is put, deleted by its stamp, and another is put with a lifetime.
abbrev history : List Op
history =
    do_put_if_version 5 5 5 (codes "a") (codes "one") (pos 0) 0
    ∷ do_delete_if_version 6 6 (codes "a") 2
    ∷ do_put 7 (codes "b") (codes "two") (pos 1)
    ∷ []

abbrev cache : MemoryCache
cache = perform_all history new_memory_cache

perform_all-new_memory_cache_example : Ok cache
perform_all-new_memory_cache_example = perform_all-new_memory_cache history

-- A populate that observed absence before the delete loses to it.
perform-on_rows_example :
    report (perform (do_put_if_version 9 9 9 (codes "a") (codes "old") (pos 0) 1) cache)
    ≡ on_rows (do_put_if_version 9 9 9 (codes "a") (codes "old") (pos 0) 1) (store_of cache)
unfolding put_if_version delete_if_version delete_unless refusal put entry_expiry lookup remove
    bytes_eq is_live is_unexpired admits_locked fence_allows stamp_or_legacy dead_refusal
perform-on_rows_example =
    perform-on_rows (do_put_if_version 9 9 9 (codes "a") (codes "old") (pos 0) 1) cache
      (perform_all-new_memory_cache history) refl

stale :
    (perform (do_put_if_version 9 9 9 (codes "a") (codes "old") (pos 0) 1) cache).answer
    ≡ version_mismatch 3
unfolding put_if_version delete_if_version delete_unless refusal put entry_expiry lookup remove
    bytes_eq is_live is_unexpired admits_locked fence_allows stamp_or_legacy dead_refusal
stale = refl

slice_range-Cut_case : Cut (codes "hello") 1 3 (bytes (codes "el"))
unfolding slice_range range_end
slice_range-Cut_case = slice_range-Cut (codes "hello") (pos 1) (pos 2)

-- At the very instant of its expiry a value is no longer live, and Get still answers it.
at_expiry :
    (get 1000000007 (codes "b") cache ≡ some (codes "two"))
    × (live_locked 1000000007 cache (codes "b") ≡ false)
unfolding put_if_version delete_if_version delete_unless refusal put entry_expiry lookup remove
    bytes_eq is_live is_unexpired admits_locked fence_allows stamp_or_legacy dead_refusal get
    is_past
at_expiry = (refl, refl)
