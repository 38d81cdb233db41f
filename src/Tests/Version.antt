-- ===== src/Tests/Version.antt =====
-- The version stamps at concrete inputs.
use ocache.Version.Returns.{Answered, next_version-Answered}
use ocache.Base.{List, [], arith, inl, inr, refl, some, suc, true, ◌∷◌, ◌≡◌, ◌≤◌}
use ocache.Version.Stamps.{
  Event, Stamps, Turn, load, new_stamps, next_version, reserve, restart, run, step, swap, take_turn,
}
use ocache.Version.Monotone.{Issued, run-Issued}

-- Two calls race for a stamp, the process restarts, and the clock has gone back.
abbrev race : List Event
race =
    load 0 100
    ∷ load 1 100
    ∷ reserve 0 true
    ∷ reserve 1 true
    ∷ swap 0
    ∷ swap 1
    ∷ restart
    ∷ load 2 90
    ∷ reserve 2 true
    ∷ swap 2
    ∷ []

race-issued : (run new_stamps race).issued ≡ 60_000_000_101 ∷ 100 ∷ []
unfolding run step
race-issued = refl

run-Issued_example :
    Issued (suc 60_000_000_101) (60_000_000_101 ∷ 100 ∷ []) × (60_000_000_101 ≤ 120_000_000_101)
unfolding run step
run-Issued_example = run-Issued race (
  (omega arith, omega arith, omega arith),
  (
    (omega arith, omega arith, omega arith),
    (tt, (tt, (tt, (tt, (tt, ((omega arith, omega arith, omega arith), (tt, (tt, tt)))))))),
  ),
)

abbrev started : Stamps
started = record new_stamps { last_version = 90; version_hi = 500; durable_hwm = some 500 }

-- The first turn is lost to another call, the second is not disturbed by a load.
abbrev turns : List Turn
turns =
    record {
      now = 40;
      written = true;
      before_reserve = load 1 40 ∷ [];
      before_swap = reserve 1 true ∷ swap 1 ∷ [];
    }
    ∷ record { now = 41; written = true; before_reserve = load 2 41 ∷ []; before_swap = [] }
    ∷ []

next_version-Answered_example : Answered (next_version 0 turns started)
next_version-Answered_example =
    next_version-Answered 0 turns started refl
      (((refl, tt), (refl, (refl, tt))), (((refl, tt), tt), tt)) (inr (inl ((tt, tt), tt)))

next_version-started : (next_version 0 turns started).0 ≡ some (some 92)
unfolding next_version take_turn step run
next_version-started = refl
