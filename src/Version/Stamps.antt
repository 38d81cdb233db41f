-- ===== src/Version/Stamps.antt =====
-- storage/cas.go: nextVersion, extendVersionReservation, loadVersionReservation. The atomic loads and
-- the swap of a call are steps of their own, so that calls interleave at them; the extension runs under
-- its mutex and is one step. A uint64 is a number below 2 ^ 64. The eight big-endian bytes of the
-- durable row are the number that they spell.
use ocache.Base.{
  Bool, List, Option, [], false, if◌then◌else◌, leb, none, some, true, ℕ, ◌%◌, ◌+◌, ◌==◌, ◌^◌, ◌∷◌,
}

abbrev pub u64 : ℕ
u64 = 2 ^ 64

abbrev pub version_reservation_block : ℕ
version_reservation_block = 60_000_000_000

-- Where a call of nextVersion stands: `loaded last next` has computed a candidate, `reserved last next`
-- has seen it below the ceiling.
pub data Call : Type 0 where
  idle : Call
  loaded reserved : ℕ → ℕ → Call

-- `issued` lists the stamps handed out, the newest first; the program does not keep it.
pub record Stamps : Type 0 where
  pub last_version : ℕ
  pub version_hi : ℕ
  pub durable_hwm : Option ℕ
  pub calls : ℕ → Call
  pub issued : List ℕ

abbrev pub set_call : (ℕ → Call) → ℕ → Call → ℕ → Call
set_call calls i c j = if i == j then c else calls j

-- The clock, or one past the last stamp where the clock is not ahead of it.
unfoldable pub candidate : ℕ → ℕ → ℕ
candidate now last = if leb now last then (last + 1) % u64 else now

-- `written` says whether the synced write went through.
unfoldable pub extend_version_reservation : ℕ → Bool → Stamps → Stamps × Bool
extend_version_reservation next written s =
    let new_hi : ℕ = (next + version_reservation_block) % u64 in
    if leb next s.version_hi
    then (s, true)
    else if written
    then (record s { durable_hwm = some new_hi; version_hi = new_hi }, true)
    else (s, false)

-- Memory is lost, and the durable ceiling is read back.
unfoldable pub load_version_reservation : Stamps → Stamps
load_version_reservation s =
    let fresh : Stamps = record s { last_version = 0; version_hi = 0; calls = λ _. idle } in
    elim s.durable_hwm [
      | none ↦ fresh
      | some hwm ↦ record fresh { last_version = hwm; version_hi = hwm }
    ]

-- One iteration of the loop of nextVersion, at its three points of contact with shared memory.
unfoldable pub load_step : ℕ → ℕ → Call → Stamps → Stamps
unfolding candidate
load_step i now idle s = record s {
  calls = set_call s.calls i (loaded s.last_version (candidate now s.last_version));
}
load_step i now (loaded last next) s = s
load_step i now (reserved last next) s = s

unfoldable pub reserve_step : ℕ → Bool → Call → Stamps → Stamps
unfolding extend_version_reservation
reserve_step i written (loaded last next) s =
    let (s', done) = extend_version_reservation next written s in
    record s' { calls = set_call s'.calls i (if done then reserved last next else idle) }
reserve_step i written idle s = s
reserve_step i written (reserved last next) s = s

unfoldable pub swap_step : ℕ → Call → Stamps → Stamps
swap_step i (reserved last next) s =
    let calls : ℕ → Call = set_call s.calls i idle in
    if s.last_version == last
    then record s { last_version = next; calls = calls; issued = next ∷ s.issued }
    else record s { calls = calls }
swap_step i idle s = s
swap_step i (loaded last next) s = s

pub data Event : Type 0 where
  load : ℕ → ℕ → Event
  reserve : ℕ → Bool → Event
  swap : ℕ → Event
  restart : Event

unfoldable pub step : Stamps → Event → Stamps
unfolding load_step reserve_step swap_step load_version_reservation
step s (load i now) = load_step i now (s.calls i) s
step s (reserve i written) = reserve_step i written (s.calls i) s
step s (swap i) = swap_step i (s.calls i) s
step s restart = load_version_reservation s

unfoldable pub run : Stamps → List Event → Stamps
run s [] = s
run s (e ∷ es) = run (step s e) es

-- A store that has never issued a stamp.
abbrev pub new_stamps : Stamps
new_stamps = record {
  last_version = 0;
  version_hi = 0;
  durable_hwm = none;
  calls = λ _. idle;
  issued = [];
}

-- One iteration of a call: its reading of the clock, whether a write of the ceiling goes through, and what
-- the other calls do between its load and its reservation, and between that and its swap.
pub record Turn : Type 0 where
  pub now : ℕ
  pub written : Bool
  pub before_reserve : List Event
  pub before_swap : List Event

-- The state in front of the swap.
unfoldable pub take_turn : ℕ → Turn → Stamps → Stamps
unfolding step run
take_turn i t s =
    run (step (run (step s (load i t.now)) t.before_reserve) (reserve i t.written)) t.before_swap

-- Behind the reservation: an error where it failed, the stamp where the swap goes through, or the loop goes
-- on. A call that has not come to its reservation has no answer.
abbrev pub settle_turn :
    Call → Stamps → Stamps → Option (Option ℕ) × Stamps → Option (Option ℕ) × Stamps
settle_turn idle s swapped rest = (some none, s)
settle_turn (loaded last next) s swapped rest = (none, s)
settle_turn (reserved last next) s swapped rest =
    if s.last_version == last then (some (some next), swapped) else rest

-- The loop of nextVersion, as one of the calls; `none` is a call that still loops behind these turns.
unfoldable pub next_version : ℕ → List Turn → Stamps → Option (Option ℕ) × Stamps
unfolding take_turn
next_version i [] s = (none, s)
next_version i (t ∷ ts) s =
    let s' = take_turn i t s in
    let rest = next_version i ts (step s' (swap i)) in
    settle_turn (s'.calls i) s' (step s' (swap i)) rest
