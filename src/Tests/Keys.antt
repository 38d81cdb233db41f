-- ===== src/Tests/Keys.antt =====
-- The names of rows, at concrete inputs.
use ocache.Base.{Bytes, arith, codes, inl, refl, some, true, ℕ, ◌≡◌}
use ocache.Base.Int.{pos}
use ocache.Keys.Text.{pad_decimal}
use ocache.Keys.Format.{
  eviction_entry_time, make_bucketed_access_key, make_deletion_queue_key, make_fifo_index_key,
  parse_deletion_queue_key, parse_fifo_index_key, parse_fifo_index_time,
}
use ocache.Keys.RoundTrip.{
  eviction_entry_time-make, parse_deletion_queue_key-make, parse_fifo_index-make,
}
use ocache.Keys.Order.{lex_lt, make_bucketed_access_key-lex_lt, make_fifo_index_key-lex_lt}

-- An hour for every time.
abbrev some_hour : ℕ → Bytes
some_hour t = codes "2026030114"

deletion_name : make_deletion_queue_key 7 (codes "a/b") ≡ codes "!del/00000000000000000007/a/b"
unfolding make_deletion_queue_key pad_decimal
deletion_name = refl

parse_deletion_queue_key-make_case :
    parse_deletion_queue_key (make_deletion_queue_key 7 (codes "raw/a/b"))
    ≡ some (pos 7, codes "raw/a/b")
parse_deletion_queue_key-make_case = parse_deletion_queue_key-make 7 (codes "raw/a/b") (omega arith)

parse_fifo_index-make_case :
    (parse_fifo_index_key (make_fifo_index_key (codes "k/1") 12) ≡ some (codes "k/1"))
    × (parse_fifo_index_time (make_fifo_index_key (codes "k/1") 12) ≡ some (pos 12))
parse_fifo_index-make_case = parse_fifo_index-make (codes "k/1") 12 (omega arith)

eviction_entry_time-make_case :
    (eviction_entry_time (make_bucketed_access_key some_hour (codes "k") 12) ≡ some (pos 12))
    × (eviction_entry_time (make_fifo_index_key (codes "k") 12) ≡ some (pos 12))
eviction_entry_time-make_case =
    eviction_entry_time-make some_hour (λ t. refl) (codes "k") 12 (omega arith)

make_fifo_index_key-lex_lt_case :
    lex_lt (make_fifo_index_key (codes "z") 9) (make_fifo_index_key (codes "a") 10) ≡ true
make_fifo_index_key-lex_lt_case =
    make_fifo_index_key-lex_lt (codes "z") (codes "a") 9 10 (omega arith) (omega arith)

make_bucketed_access_key-lex_lt_case :
    lex_lt
      (make_bucketed_access_key some_hour (codes "z") 9)
      (make_bucketed_access_key some_hour (codes "a") 10)
    ≡ true
make_bucketed_access_key-lex_lt_case =
    make_bucketed_access_key-lex_lt some_hour (λ t. refl) (λ t u h. inl refl) (codes "z")
      (codes "a") 9 10 (omega arith) (omega arith)
