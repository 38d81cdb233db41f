-- ===== src/Segment/Reserve.antt =====
-- storage/segment: Reserve and Release of segment.go, and AcquireOpenSegmentWithReservation of manager.go.
use ocache.Base.{
  Bool, Bytes, List, Option, [], bytes_eq, false, if◌then◌else◌, is_empty, leb, none, not, some,
  true, ℕ, ◌&&◌, ◌++◌, ◌+◌, ◌||◌, ◌∷◌,
}
use ocache.Base.Assoc.{insert, lookup}
use ocache.Segment.Write.{Segment, new_segment_with_reservation}

abbrev pub is_open : Segment → Bool
is_open seg = elim seg.file [ none ↦ false | some f ↦ true ]

-- Nobody has reserved the segment, or the caller has.
unfoldable pub is_free_for : Bytes → Segment → Bool
is_free_for caller seg = is_empty seg.reserved_by || bytes_eq seg.reserved_by caller

unfoldable pub reserve : Bytes → Segment → Bool × Segment
unfolding is_free_for
reserve caller seg =
    if is_empty caller
    then (false, seg)
    else if not (is_open seg)
    then (false, seg)
    else if not (is_free_for caller seg)
    then (false, seg)
    else (true, record seg { reserved_by = caller })

-- The error of an empty caller is `none`.
unfoldable pub release : Bytes → Segment → Option Segment
release caller seg =
    if is_empty caller
    then none
    else if bytes_eq seg.reserved_by caller
    then some (record seg { reserved_by = [] })
    else some seg

-- The segments by path, and the paths of the open ones.
pub record Manager : Type 0 where
  pub segments : List (Bytes × Segment)
  pub open_segments : List Bytes
  pub segment_size : ℕ

-- What one call meets: the segments whose lock is held, those that are finalized between the look at them
-- and the reservation, and the creation of a file.
pub record AcquireIo : Type 0 where
  pub busy : Bytes → Bool
  pub finalized : Bytes → Bool
  pub new_path : Bytes
  pub creates : Bool

unfoldable pub suits : Bytes → ℕ → Segment → Bool
unfolding is_free_for
suits caller needed seg =
    is_open seg && leb (seg.size + needed) seg.max_supported_size && is_free_for caller seg

abbrev pub take_segment : AcquireIo → Bytes → ℕ → Bytes → Option Segment → Option Segment
take_segment io caller needed path none = none
take_segment io caller needed path (some seg) =
    if not (io.busy path) && not (io.finalized path) && suits caller needed seg
    then (if (reserve caller seg).0 then some (reserve caller seg).1 else none)
    else none

abbrev pub pick : Bytes → Option Segment → Option (Bytes × Segment) → Option (Bytes × Segment)
pick path (some seg) rest = some (path, seg)
pick path none rest = rest

-- The first open segment that suits, reserved, with its path.
unfoldable pub find_open :
    AcquireIo → Bytes → ℕ → List (Bytes × Segment) → List Bytes → Option (Bytes × Segment)
find_open io caller needed segments [] = none
find_open io caller needed segments (path ∷ paths) =
    pick path (take_segment io caller needed path (lookup path segments))
      (find_open io caller needed segments paths)

unfoldable pub create_new_segment : AcquireIo → Bytes → Manager → Option (Bytes × Manager)
create_new_segment io caller m =
    if io.creates
    then some (
      io.new_path,
      record m {
        segments =
            insert io.new_path (new_segment_with_reservation io.new_path m.segment_size caller)
              m.segments;
        open_segments = m.open_segments ++ io.new_path ∷ [];
      },
    )
    else none

abbrev pub hand_out :
    AcquireIo → Bytes → Manager → Option (Bytes × Segment) → Option (Bytes × Manager)
hand_out io caller m (some (path, seg)) =
    some (path, record m { segments = insert path seg m.segments })
hand_out io caller m none = create_new_segment io caller m

-- The path of the segment that the caller got, or the error.
unfoldable pub acquire_open_segment_with_reservation :
    AcquireIo → Bytes → ℕ → Manager → Option (Bytes × Manager)
unfolding find_open create_new_segment
acquire_open_segment_with_reservation io caller needed m =
    if is_empty caller
    then none
    else hand_out io caller m (find_open io caller needed m.segments m.open_segments)
