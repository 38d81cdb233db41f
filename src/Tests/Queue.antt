-- ===== src/Tests/Queue.antt =====
-- The deletion queue at concrete inputs.
use ocache.Base.{Bytes, [], arith, bytes_eq, bytes_eq_refl, codes, false, refl, true, ◌∷◌, ◌≡◌}
use ocache.Base.Int.{pos}
use ocache.Keys.Text.{has_prefix, pad_decimal, scan_digits, scan_int, split_first}
use ocache.Keys.Format.{make_deletion_queue_key}
use ocache.Keys.RoundTrip.{parse_deletion_queue_key-make}
use ocache.Queue.Process.{Rows, locked, process_batch, prune_old_entries}
use ocache.Queue.Keep.{Kept, process_batch-Kept}
use ocache.Queue.Prune.{prune_old_entries-keeps}

abbrev key : Bytes
key = make_deletion_queue_key 5 (codes "raw/1")

abbrev holds : Rows
holds j = bytes_eq key j

abbrev after_batch : Rows
after_batch =
    process_batch 10 100 (λ path. locked) (λ path. 160) (λ seen. seen) true ((false, key) ∷ [])
      holds

process_batch-Kept_example : Kept (λ path. locked) (λ path. 160) key (codes "raw/1") after_batch
process_batch-Kept_example =
    process_batch-Kept 10 100 (λ path. locked) (λ path. 160) (λ seen. seen) true ((false, key) ∷ [])
      holds key (codes "raw/1") (pos 5) (λ seen all. all) (omega arith)
      (parse_deletion_queue_key-make 5 (codes "raw/1") (omega arith)) (bytes_eq_refl key)

-- The locked file's row has moved to the time of its retry.
retried :
    (after_batch key ≡ false) × (after_batch (make_deletion_queue_key 160 (codes "raw/1")) ≡ true)
unfolding process_batch has_prefix split_first pad_decimal scan_int scan_digits
retried = (refl, refl)

prune_old_entries-keeps_example :
    prune_old_entries (pos 90) (λ path. false) true ((false, (true, key)) ∷ []) [] holds key ≡ true
prune_old_entries-keeps_example =
    prune_old_entries-keeps (pos 90) (λ path. false) key (codes "raw/1") (pos 5)
      (parse_deletion_queue_key-make 5 (codes "raw/1") (omega arith)) refl true
      ((false, (true, key)) ∷ []) [] holds tt (bytes_eq_refl key)
