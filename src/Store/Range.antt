-- ===== src/Store/Range.antt =====
-- storage/storage.go: applyByteRange and the byteRangeReader. The reader that it wraps holds its bytes, and
-- each of its reads gives as many of them as it likes, up to the room it is given, with an error or without.
use ocache.Base.{
  Bool, Bytes, List, Option, [], drop, false, if◌then◌else◌, leb, length, none, not, some, suc,
  take, true, zero, ℕ, ◌&&◌, ◌+◌, ◌-◌, ◌∷◌,
}
use ocache.Base.Int.{negsuc, pos, ℤ}

pub data ReadError : Type 0 where
  read_eof : ReadError
  read_failed : ℕ → ReadError

-- What one read of the wrapped reader does: how many bytes it gives at most, and the error that it gives.
pub record Served : Type 0 where
  pub most : ℕ
  pub fails : Option ReadError

-- The wrapped reader; `seekable` is whether it is an io.Seeker.
pub record ByteSource : Type 0 where
  pub content : Bytes
  pub offset : ℕ
  pub seekable : Bool

-- The code tests both bounds for being positive before it uses them, so 0 stands for every other number.
pub record ByteRangeReader : Type 0 where
  pub source : ByteSource
  pub start : ℕ
  pub stop : ℕ
  pub position : ℕ
  pub seeked : Bool

-- What the wrapped reader does during one call: the answer of the seek, the reads of the skip, the last read.
pub record ReadIo : Type 0 where
  pub seek_fails : Option ReadError
  pub skips : List Served
  pub served : Served
  pub room : ℕ

abbrev pub positive : ℤ → ℕ
positive (pos n) = n
positive (negsuc n) = 0

abbrev pub is_positive : ℕ → Bool
is_positive zero = false
is_positive (suc n) = true

abbrev pub smaller : ℕ → ℕ → ℕ
smaller a b = if leb a b then a else b

unfoldable pub apply_byte_range : ByteSource → ℤ → ℤ → ByteRangeReader
apply_byte_range source start stop = record {
  source = source;
  start = positive start;
  stop = positive stop;
  position = 0;
  seeked = false;
}

abbrev pub served_bytes : Served → ℕ → ByteSource → Bytes
served_bytes v room src = take (smaller v.most room) (drop src.offset src.content)

abbrev pub pass_bytes : Bytes → ByteRangeReader → ByteRangeReader
pass_bytes got r = record r {
  source = record r.source { offset = r.source.offset + length got };
  position = r.position + length got;
}

-- Read and discard; none where the reads given are too few to tell.
unfoldable pub skip_bytes :
    List Served → ℕ → ByteRangeReader → Option (Option ReadError × ByteRangeReader)
skip_bytes ls zero r = some (none, r)
skip_bytes [] (suc n) r = none
skip_bytes (v ∷ ls) (suc n) r =
    let got : Bytes = served_bytes v (smaller 1048576 (suc n)) r.source in
    let rest : Option (Option ReadError × ByteRangeReader) =
      skip_bytes ls (suc n - length got) (pass_bytes got r) in
    elim v.fails [ some e ↦ some (some e, pass_bytes got r) | none ↦ rest ]

abbrev pub mark_seeked :
    Option (Option ReadError × ByteRangeReader) → Option (Option ReadError × ByteRangeReader)
mark_seeked none = none
mark_seeked (some (some e, r)) = some (some e, r)
mark_seeked (some (none, r)) = some (none, record r { seeked = true })

abbrev pub seek_source : Option ReadError → ByteRangeReader → Option ReadError × ByteRangeReader
seek_source (some e) r = (some e, r)
seek_source none r =
    (none, record r { source = record r.source { offset = r.start }; position = r.start })

unfoldable pub seek_start : ReadIo → ByteRangeReader → Option (Option ReadError × ByteRangeReader)
unfolding skip_bytes
seek_start io r =
    if not r.seeked && is_positive r.start
    then if r.source.seekable
      then mark_seeked (some (seek_source io.seek_fails r))
      else mark_seeked (skip_bytes io.skips r.start r)
    else some (none, r)

unfoldable pub read_limited :
    Served → ℕ → ByteRangeReader → (Bytes × Option ReadError) × ByteRangeReader
read_limited v room r =
    let limit : ℕ =
      if is_positive r.stop && leb (suc r.stop + 1) (r.position + room)
      then r.stop - r.position + 1
      else room in
    let got : Bytes = served_bytes v limit r.source in
    if is_positive r.stop && leb (suc r.stop) r.position
    then (([], some read_eof), r)
    else ((got, v.fails), pass_bytes got r)

abbrev pub read_placed :
    ReadIo
    → Option (Option ReadError × ByteRangeReader)
    → Option ((Bytes × Option ReadError) × ByteRangeReader)
unfolding read_limited
read_placed io none = none
read_placed io (some (some e, r)) = some (([], some e), r)
read_placed io (some (none, r)) = some (read_limited io.served io.room r)

unfoldable pub read :
    ReadIo → ByteRangeReader → Option ((Bytes × Option ReadError) × ByteRangeReader)
unfolding seek_start
read io r = read_placed io (seek_start io r)
