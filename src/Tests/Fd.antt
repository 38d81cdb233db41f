-- ===== src/Tests/Fd.antt =====
-- A cached descriptor with two callers.
use ocache.Base.{refl, ◌≡◌}
use ocache.Fd.Entry.{
  FileEntry, Reach, counted, joins, later, new_entry, opened, opens, start, try_acquire_ref,
}
use ocache.Fd.Close.{Fair, Reach-Fair, Reach-Steps, Steps}

abbrev shared : FileEntry
shared = record new_entry { refs = counted 2; file = opened; holding = 2 }

two_callers : Reach shared
unfolding try_acquire_ref
two_callers = later (later start joins) (opens opened refl refl)

Reach-Fair_example : Fair shared
Reach-Fair_example = Reach-Fair two_callers

Reach-Steps_case : (f : FileEntry) × Steps shared f × (f.closed ≡ 1)
Reach-Steps_case = Reach-Steps two_callers refl
