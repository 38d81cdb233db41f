-- ===== src/Keys/RoundTrip.antt =====
-- What is written into a row's name is read back from it.
use mathlib.Core.List.{append_assoc, append-nil}
use ocache.Base.{
  Bytes, [], arith, drop, drop-append, length, length-append, refl, some, suc, take, take-append, ℕ,
  ◌++◌, ◌+◌, ◌<◌, ◌^◌, ◌∷◌, ◌≡◌, ◌≤◌,
}
use ocache.Base.Int.{pos}
use ocache.Keys.Text.{
  has_prefix, int64_limit, length-pad_decimal, pad_decimal, scan_int, scan_int-pad_decimal,
  split_first, split_first-pad_decimal,
}
use ocache.Keys.Format.{
  eviction_entry_time, is_bucketed_access_key, make_bucketed_access_key, make_deletion_queue_key,
  make_fifo_index_key, make_sync_key, parse_bucketed_access_key, parse_deletion_queue_key,
  parse_fifo_index_key, parse_fifo_index_time, parse_stamped, parse_sync_key,
}

below_width : (ts : ℕ) → ts < int64_limit → ts < 10 ^ 19
below_width ts h = omega arith

parse_stamped_lem :
    (ts : ℕ) (path : Bytes)
    → ts < int64_limit
    → parse_stamped (pad_decimal 20 ts ++ b'/' ∷ path) ≡ some (pos ts, path)
unfolding parse_stamped
parse_stamped_lem ts path h =
    let split : split_first b'/' (b'/' ∷ path) ≡ some ([], path) = unfold split_first in refl in
    let found = split_first-pad_decimal b'/' 20 ts (b'/' ∷ path) (omega arith) split in
    rw (
      found,
      parse_stamped,
      append-nil (pad_decimal 20 ts),
      scan_int-pad_decimal 19 19 ts (omega arith) (omega arith) h,
    )

-- A deletion-queue entry names its time and its file, whatever bytes the file's path holds, separators
-- included: the parser returns both for every non-negative int64 time.
pub parse_deletion_queue_key-make :
    (ts : ℕ) (path : Bytes)
    → ts < int64_limit
    → parse_deletion_queue_key (make_deletion_queue_key ts path) ≡ some (pos ts, path)
unfolding parse_deletion_queue_key make_deletion_queue_key has_prefix
parse_deletion_queue_key-make ts path h = parse_stamped_lem ts path h

pub parse_sync_key-make :
    (now : ℕ) (path : Bytes)
    → now < int64_limit
    → parse_sync_key (make_sync_key now path) ≡ some (pos now, path)
unfolding parse_sync_key make_sync_key has_prefix
parse_sync_key-make now path h = parse_stamped_lem now path h

module _ (n c : ℕ) (s : Bytes) where
  stamped : Bytes
  stamped = pad_decimal 19 n ++ c ∷ s

  take-stamped : take 19 stamped ≡ pad_decimal 19 n
  unfolding stamped
  take-stamped = take-append 19 (pad_decimal 19 n) (c ∷ s) (length-pad_decimal 19 n)

  drop-stamped : drop 19 stamped ≡ c ∷ s
  unfolding stamped
  drop-stamped = drop-append 19 (pad_decimal 19 n) (c ∷ s) (length-pad_decimal 19 n)

  drop_more-stamped : drop 20 stamped ≡ s
  unfolding stamped
  drop_more-stamped = rw (← append_assoc (pad_decimal 19 n) (c ∷ []) s) (
      drop-append 20 (pad_decimal 19 n ++ c ∷ []) s
        (omega (arith, length-append (pad_decimal 19 n) (c ∷ []), length-pad_decimal 19 n)))

  length-stamped : length stamped ≡ 20 + length s
  unfolding stamped
  length-stamped = omega (arith, length-append (pad_decimal 19 n) (c ∷ s), length-pad_decimal 19 n)

scan-stamped :
    (m n : ℕ) → 18 ≤ m → n < int64_limit → scan_int (suc m) (pad_decimal 19 n) ≡ some (pos n)
scan-stamped m n w h = scan_int-pad_decimal 18 m n w (omega arith) h

-- The name of a FIFO entry gives the user's key back, and its write time, whatever bytes the key holds.
pub parse_fifo_index-make :
    (key : Bytes) (t : ℕ)
    → t < int64_limit
    → (parse_fifo_index_key (make_fifo_index_key key t) ≡ some key)
      × (parse_fifo_index_time (make_fifo_index_key key t) ≡ some (pos t))
unfolding parse_fifo_index_key parse_fifo_index_time make_fifo_index_key has_prefix stamped
parse_fifo_index-make key t h =
    let n = length-stamped t b'/' key in
    let d = drop-stamped t b'/' key in
    (
      ground (arith, n, d, drop_more-stamped t b'/' key),
      ground
          (arith, n, d, take-stamped t b'/' key, scan-stamped (length (stamped t b'/' key) + 5) t),
    )

module _ (format_hour : ℕ → Bytes) (hour_digits : (t : ℕ) → length (format_hour t) ≡ 10) where
  -- With an hour of ten digits, the name of an access entry gives the user's key and its time back.
  pub parse_bucketed_access_key-make :
      (key : Bytes) (t : ℕ)
      → t < int64_limit
      → parse_bucketed_access_key (make_bucketed_access_key format_hour key t) ≡ some (key, pos t)
  unfolding parse_bucketed_access_key make_bucketed_access_key stamped
  parse_bucketed_access_key-make key t h =
      let bucket : Bytes = format_hour t ++ b'/' ∷ [] in
      let ten : length bucket ≡ 11 =
        omega (arith, length-append (format_hour t) (b'/' ∷ []), hour_digits t) in
      let n = length-stamped t b'/' key in
      let m = length-append bucket (stamped t b'/' key) in
      let d = drop-append 11 bucket (stamped t b'/' key) ten in
      ground (
        arith,
        n,
        m,
        ten,
        d,
        take-stamped t b'/' key,
        drop_more-stamped t b'/' key,
        scan-stamped (length (bucket ++ stamped t b'/' key) + 14) t,
      )

  -- The entry of either policy carries the time it was written with.
  pub eviction_entry_time-make :
      (key : Bytes) (t : ℕ)
      → t < int64_limit
      → (eviction_entry_time (make_bucketed_access_key format_hour key t) ≡ some (pos t))
        × (eviction_entry_time (make_fifo_index_key key t) ≡ some (pos t))
  unfolding eviction_entry_time is_bucketed_access_key make_bucketed_access_key make_fifo_index_key
      has_prefix
  eviction_entry_time-make key t h = (
    rw (parse_bucketed_access_key-make key t h, eviction_entry_time),
    (parse_fifo_index-make key t h).1,
  )
