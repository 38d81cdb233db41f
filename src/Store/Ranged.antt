-- ===== src/Store/Ranged.antt =====
-- storage/storage.go: reading a byteRangeReader to its end gives the bytes of the range.
use ocache.Base.{
  Bool, Bytes, List, Option, [], ap, arith, drop, false, inl, inr, length, length-append, none, not,
  refl, some, suc, sym, take, true, zero, ℕ, ◌&&◌, ◌++◌, ◌+◌, ◌-◌, ◌∙◌, ◌∷◌, ◌≡◌, ◌≤◌, ◌⊎◌,
}
use ocache.Base.Int.{ℤ}
use ocache.Base.Slices.{gives, length-drop, length-nil, length-take}
use ocache.Store.Range.{
  ByteRangeReader, ReadError, ReadIo, Served, apply_byte_range, is_positive, mark_seeked, positive,
  read, read_limited, seek_start, skip_bytes, smaller,
}
use ocache.Store.Placed.{placed, smaller-AtMost, step, wanted}

abbrev prepend : Bytes → Option Bytes → Option Bytes
prepend got none = none
prepend got (some rest) = some (got ++ rest)

-- The calls of a client that reads until the first error, and the bytes that it has then.
abbrev follow :
    Option ((Bytes × Option ReadError) × ByteRangeReader)
    → (ByteRangeReader → Option Bytes)
    → Option Bytes
follow none k = none
follow (some ((got, some e), r)) k = some got
follow (some ((got, none), r)) k = prepend got (k r)

unfoldable pub read_all : List ReadIo → ByteRangeReader → Option Bytes
unfolding read
read_all [] r = some []
read_all (io ∷ ios) r = follow (read io r) (λ r'. read_all ios r')

-- Reads without an error that give something whenever they are asked for something.
abbrev pub Quiet : Served → Type 0
Quiet v = v.fails ≡ none × 1 ≤ v.most

abbrev pub AllQuiet : List Served → Type 0
AllQuiet [] = Unit
AllQuiet (v ∷ ls) = Quiet v × AllQuiet ls

abbrev pub Rewinds : ℕ → ReadIo → Type 0
Rewinds start io = io.seek_fails ≡ none × AllQuiet io.skips × start ≤ length io.skips

abbrev pub Eager : ReadIo → Type 0
Eager io = Quiet io.served × 1 ≤ io.room

abbrev pub AllEager : List ReadIo → Type 0
AllEager [] = Unit
AllEager (io ∷ ios) = Eager io × AllEager ios

module _ (content : Bytes) (seekable seeked : Bool) (start stop : ℕ) where
  follow-got :
      (p : ℕ) (ios : List ReadIo) (got : Bytes) (err : Option ReadError)
      → length (wanted content stop p) ≤ suc (length ios)
      → ((q : ℕ)
          → length (wanted content stop q) ≤ length ios
          → read_all ios (placed content seekable start stop seeked q)
            ≡ some (wanted content stop q))
      → got ++ wanted content stop (p + length got) ≡ wanted content stop p
      → (wanted content stop p ≡ []) ⊎ ((1 ≤ length got) × (err ≡ none))
      → follow
          (some ((got, err), placed content seekable start stop seeked (p + length got)))
          (λ r'. read_all ios r')
        ≡ some (wanted content stop p)
  follow-got p ios got none enough ih split last =
      let sum = length-append got (wanted content stop (p + length got)) in
      let whole = ap length split in
      ap (prepend got) (
        ih (p + length got) (elim last [
          | inl w ↦ let empty = ap length w in omega arith
          | inr x ↦ let some_got = x.0 in omega arith
        ]))
      ∙ ap some split
  follow-got p ios got (some e) enough ih split (inl w) =
      let sum = length-append got (wanted content stop (p + length got)) in
      let whole = ap length split in
      let empty = ap length w in ap some (length-nil got (omega arith) ∙ sym w)
  follow-got p ios got (some e) enough ih split (inr x) = let bad = x.1 in absurd (ground arith)

  follow-wanted :
      (p : ℕ) (ios : List ReadIo) (io : ReadIo)
      → not seeked && is_positive start ≡ false
      → Eager io
      → length (wanted content stop p) ≤ suc (length ios)
      → ((q : ℕ)
          → length (wanted content stop q) ≤ length ios
          → read_all ios (placed content seekable start stop seeked q)
            ≡ some (wanted content stop q))
      → follow
          (some (read_limited io.served io.room (placed content seekable start stop seeked p)))
          (λ r'. read_all ios r')
        ≡ some (wanted content stop p)
  follow-wanted p ios io h eager enough ih =
      let (got, err, eq, split, last) =
        step content seekable seeked start stop io.served io.room p in
      rw eq (follow-got p ios got err enough ih split (last eager.0.0 eager.0.1 eager.1))

  read_all-placed :
      (p : ℕ) (ios : List ReadIo)
      → not seeked && is_positive start ≡ false
      → AllEager ios
      → length (wanted content stop p) ≤ length ios
      → read_all ios (placed content seekable start stop seeked p) ≡ some (wanted content stop p)
  unfolding read_all read seek_start read_limited
  read_all-placed p [] h eager enough = ap some (sym (length-nil (wanted content stop p) enough))
  read_all-placed p (io ∷ ios) h (e, eager) enough =
      rw h (follow-wanted p ios io h e enough (λ q less. read_all-placed q ios h eager less))

module _ (content : Bytes) (seekable : Bool) (start stop : ℕ) where
  skip_bytes-placed :
      (ls : List Served) (n p : ℕ)
      → AllQuiet ls
      → n ≤ length ls
      → p + n ≤ length content
      → skip_bytes ls n (placed content seekable start stop false p)
        ≡ some (none, placed content seekable start stop false (p + n))
  unfolding skip_bytes
  skip_bytes-placed ls zero p quiet enough inside =
      ap (λ i. some (none, placed content seekable start stop false i)) (omega arith)
  skip_bytes-placed [] (suc n) p quiet enough inside = absurd (omega arith)
  skip_bytes-placed (v ∷ ls) (suc n) p (q, quiet) enough inside =
      let m : ℕ = smaller v.most (smaller 1048576 (suc n)) in
      let got : Bytes = take m (drop p content) in
      let asked = smaller-AtMost 1048576 (suc n) in
      let served = smaller-AtMost v.most (smaller 1048576 (suc n)) in
      let served_most = served.0 in
      let asked_most = asked.0 in
      let size = length-take m (drop p content) in
      let ahead = length-drop p content in
      let some_got : 1 ≤ length got =
        elim (gives m 0 (drop p content) (served.1 q.1 (asked.1 (omega arith) (omega arith)))) [
          | inl e ↦ let empty = ap length e.1 in absurd (omega arith)
          | inr x ↦ x
        ] in
      rw q.0 (
        skip_bytes-placed ls (suc n - length got) (p + length got) quiet (omega arith) (omega arith)
        ∙ ap (λ i. some (none, placed content seekable start stop false i)) (omega arith))

settled : (b : Bool) → not b && b ≡ false
settled true = refl
settled false = refl

module _ (content : Bytes) (stop : ℕ) where
  -- The first call goes to the start of the range, by a seek or by a skip.
  seek_start-placed :
      (seekable : Bool) (start : ℕ) (io : ReadIo)
      → (seekable ≡ true) ⊎ (start ≤ length content)
      → Rewinds start io
      → seek_start io (placed content seekable start stop false 0)
        ≡ some (none, placed content seekable start stop (is_positive start) start)
  unfolding seek_start
  seek_start-placed seekable zero io reach e = refl
  seek_start-placed true (suc n) io reach e = rw e.0 refl
  seek_start-placed false (suc n) io (inl bad) e = absurd (ground arith)
  seek_start-placed false (suc n) io (inr inside) e =
      ap mark_seeked
        (skip_bytes-placed content false (suc n) stop io.skips (suc n) 0 e.1 e.2 (omega arith))
      ∙ ap (λ i. some (none, placed content false (suc n) stop true i)) (omega arith)

  read_all-first :
      (seekable : Bool) (start : ℕ) (io : ReadIo) (ios : List ReadIo)
      → (seekable ≡ true) ⊎ (start ≤ length content)
      → Rewinds start io
      → Eager io
      → AllEager ios
      → length (wanted content stop start) ≤ suc (length ios)
      → read_all (io ∷ ios) (placed content seekable start stop false 0)
        ≡ some (wanted content stop start)
  unfolding read_all read read_limited
  read_all-first seekable start io ios reach w e eager enough =
      rw (seek_start-placed seekable start io reach w) (
        follow-wanted content seekable (is_positive start) start stop start ios io
          (settled (is_positive start)) e enough
          (λ q less.
            read_all-placed content seekable (is_positive start) start stop q ios
              (settled (is_positive start)) eager less))

-- Where the bounds of a range are numbers of any sign, the wrapped reader is at its first byte and either can
-- seek or holds the bytes before the range, and no read fails and each gives at least one of the bytes asked
-- for that are left (those of the skip included, which are at least as many as the bytes to skip), then as
-- many calls as the range has bytes, and at least one, hand out exactly the range: the bytes from the start
-- to the inclusive end, or to the end of the content where the end is not positive.
pub read_all-range :
    (content : Bytes) (seekable : Bool) (start stop : ℤ) (io : ReadIo) (ios : List ReadIo)
    → (seekable ≡ true) ⊎ (positive start ≤ length content)
    → Rewinds (positive start) io
    → Eager io
    → AllEager ios
    → length (wanted content (positive stop) (positive start)) ≤ suc (length ios)
    → read_all (io ∷ ios) (
        apply_byte_range (record { content = content; offset = 0; seekable = seekable }) start stop)
      ≡ some (wanted content (positive stop) (positive start))
unfolding apply_byte_range
read_all-range content seekable start stop =
    read_all-first content (positive stop) seekable (positive start)
