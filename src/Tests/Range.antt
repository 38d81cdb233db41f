-- ===== src/Tests/Range.antt =====
-- Byte ranges at concrete inputs.
use ocache.Base.{[], arith, codes, false, inr, none, refl, some, true, ◌∷◌, ◌≡◌}
use ocache.Base.Int.{pos}
use ocache.Store.Range.{
  ReadIo, apply_byte_range, read, read_failed, read_limited, seek_start, skip_bytes,
}
use ocache.Store.Ranged.{read_all, read_all-range}

-- A call that skips two bytes singly and gives at most two bytes.
abbrev call : ReadIo
call = record {
  seek_fails = none;
  skips = record { most = 1; fails = none } ∷ record { most = 1; fails = none } ∷ [];
  served = record { most = 2; fails = none };
  room = 3;
}

read_all-range_example :
    read_all (call ∷ call ∷ call ∷ []) (
      apply_byte_range
        (record { content = codes "ocache"; offset = 0; seekable = false })
        (pos 2)
        (pos 4))
    ≡ some (codes "ach")
read_all-range_example =
    read_all-range (codes "ocache") false (pos 2) (pos 4) call (call ∷ call ∷ [])
      (inr (omega arith)) (refl, ((refl, omega arith), ((refl, omega arith), tt)), omega arith)
      ((refl, omega arith), omega arith)
      (((refl, omega arith), omega arith), (((refl, omega arith), omega arith), tt)) (omega arith)

-- An end of 0 is no limit: the range of the first byte alone cannot be asked for.
unbounded :
    read_all (call ∷ call ∷ call ∷ []) (
      apply_byte_range
        (record { content = codes "ocache"; offset = 0; seekable = true })
        (pos 0)
        (pos 0))
    ≡ some (codes "ocache")
unfolding read_all read read_limited seek_start apply_byte_range
unbounded = refl

-- A range that starts behind its end is empty.
reversed :
    read_all (call ∷ call ∷ []) (
      apply_byte_range
        (record { content = codes "ocache"; offset = 0; seekable = true })
        (pos 4)
        (pos 2))
    ≡ some []
unfolding read_all read read_limited seek_start apply_byte_range
reversed = refl

abbrev broken : ReadIo
broken = record call {
  skips =
      record { most = 1; fails = none } ∷ record { most = 0; fails = some (read_failed 5) } ∷ [];
}

-- A skip that fails leaves a part of the prefix discarded; a call behind it skips the whole prefix again.
skipped_twice :
    (elim (read broken (
      apply_byte_range
        (record { content = codes "ocache"; offset = 0; seekable = false })
        (pos 2)
        (pos 4))) [ none ↦ none | some x ↦ read_all (call ∷ []) x.1 ])
    ≡ some (codes "ch")
unfolding read_all read read_limited seek_start skip_bytes apply_byte_range
skipped_twice = refl
