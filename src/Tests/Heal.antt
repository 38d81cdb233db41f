-- ===== src/Tests/Heal.antt =====
-- A dangling row is purged, and a segment is handed to a second caller.
use ocache.Base.{[], bytes_eq, codes, false, refl, some, true, ℕ, ◌&&◌, ◌<◌, ◌∷◌, ◌≡◌, ◌⊎◌}
use ocache.Base.Int.{pos}
use ocache.Merge.Row.{ValueMessage, is_raw_file, raw_file, zero_message}
use ocache.Merge.Operator.{resolve}
use ocache.Store.Errors.{new_io_retryable_error}
use ocache.Store.Get.{Backing, absent_key, file_missing, get_error, get_row}
use ocache.Store.Heal.{get_row-heals, purge_operand}
use ocache.Segment.Write.{new_segment_with_reservation}
use ocache.Segment.Reserve.{AcquireIo, Manager, acquire_open_segment_with_reservation}
use ocache.Segment.Exclusive.{Acquired, acquire_open_segment_with_reservation-Acquired}

abbrev dangling : ValueMessage
dangling = record zero_message {
  value_type = raw_file;
  raw_file_path = codes "r/1";
  value_length = pos 50;
}

get_row-heals_example :
    ((get_row (pos 10) true 7 dangling file_missing).answer ≡ get_error new_io_retryable_error)
    × ((get_row (pos 10) true 7 dangling file_missing).purged ≡ some (codes "r/1"))
    × ((get_row (pos 10) true 7 dangling file_missing).touched ≡ true)
    × ((row : ValueMessage)
        → (((after : ValueMessage) × (resolve (some row) (purge_operand (codes "r/1") ∷ [])
                ≡ some after)
              × ((later : ℕ) (backing : Backing)
                  → 0 < later
                  → (get_row (pos 10) true later after backing).answer ≡ absent_key))
            ⊎ ((is_raw_file row.value_type && bytes_eq row.raw_file_path (codes "r/1") ≡ false)
                × (resolve (some row) (purge_operand (codes "r/1") ∷ []) ≡ some row))))
get_row-heals_example = get_row-heals (pos 10) true 7 dangling refl refl refl refl

abbrev one_open : Manager
one_open = record {
  segments = (codes "a", new_segment_with_reservation (codes "a") 100 (codes "compactor")) ∷ [];
  open_segments = codes "a" ∷ [];
  segment_size = 100;
}

abbrev calm : AcquireIo
calm = record { busy = λ p. false; finalized = λ p. false; new_path = codes "b"; creates = true }

acquire_open_segment_with_reservation-Acquired_example :
    Acquired
      (codes "recompactor")
      5
      one_open
      (acquire_open_segment_with_reservation calm (codes "recompactor") 5 one_open)
acquire_open_segment_with_reservation-Acquired_example =
    acquire_open_segment_with_reservation-Acquired calm (codes "recompactor") 5 one_open
