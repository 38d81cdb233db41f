-- ===== src/Version/Monotone.antt =====
-- No stamp is issued twice, whatever the interleaving, the clock and the restarts.
use ocache.Base.{
  ==_iff, Bool, Bool-cases, List, Option, [], ap, arith, inl, inr, leb, leb→le, none, refl, some,
  suc, ℕ, ◌%◌, ◌+◌, ◌<◌, ◌==◌, ◌^◌, ◌∷◌, ◌≡◌, ◌≤◌,
}
use ocache.Version.Stamps.{
  Call, Event, Stamps, candidate, idle, load, load_step, load_version_reservation, loaded,
  new_stamps, reserve, reserve_step, reserved, restart, run, set_call, step, swap, swap_step, u64,
  version_reservation_block,
}

-- Stamps newest first, each below the one before it and the newest below `n`, none of them 0 or the
-- legacy version 1.
abbrev pub Issued : ℕ → List ℕ → Type 0
Issued n [] = Unit {0}
Issued n (x ∷ xs) = (1 < x) × (x < n) × Issued x xs

Issued-mono : (m n : ℕ) (xs : List ℕ) → m ≤ n → Issued m xs → Issued n xs
Issued-mono m n [] h a = tt
Issued-mono m n (x ∷ xs) h a = (a.0, omega arith, a.2)

-- The clock reads a time after 1970 that an int64 of nanoseconds holds, and the last stamp is one.
abbrev pub InRange : Stamps → Event → Type 0
InRange s (load i now) = (1 < now) × (now < 2 ^ 63) × (s.last_version < 2 ^ 63)
InRange s (reserve i written) = Unit {0}
InRange s (swap i) = Unit {0}
InRange s restart = Unit {0}

abbrev pub AllInRange : Stamps → List Event → Type 0
AllInRange s [] = Unit {0}
AllInRange s (e ∷ es) = InRange s e × AllInRange (step s e) es

abbrev pub hwm : Option ℕ → ℕ
hwm none = 0
hwm (some n) = n

abbrev InCall : ℕ → Call → Type 0
InCall hi idle = Unit {0}
InCall hi (loaded last next) = (last < next) × (1 < next) × (next ≤ 2 ^ 63)
InCall hi (reserved last next) = (last < next) × (1 < next) × (next ≤ hi)

InCall-mono : (m n : ℕ) (c : Call) → m ≤ n → InCall m c → InCall n c
InCall-mono m n idle h a = tt
InCall-mono m n (loaded last next) h a = a
InCall-mono m n (reserved last next) h a = (a.0, a.1, omega arith)

InCall-set_call :
    (hi : ℕ) (calls : ℕ → Call) (i : ℕ) (c : Call)
    → ((j : ℕ) → InCall hi (calls j))
    → InCall hi c
    → (j : ℕ) → InCall hi (set_call calls i c j)
InCall-set_call hi calls i c all h j = elim (Bool-cases (i == j)) [
  | inl same ↦ rw same h
  | inr other ↦ rw other (all j)
]

pub record Inv (s : Stamps) : Type 0 where
  pub stamped : Issued (suc s.last_version) s.issued
  pub reserved_hi : s.last_version ≤ s.version_hi
  pub durable : s.version_hi ≤ hwm s.durable_hwm
  in_calls : (i : ℕ) → InCall s.version_hi (s.calls i)

new_stamps-Inv : Inv new_stamps
new_stamps-Inv = record {
  stamped = tt;
  reserved_hi = omega arith;
  durable = omega arith;
  in_calls = λ i. tt;
}

candidate_lem :
    (now last : ℕ)
    → 1 < now
    → now < 2 ^ 63
    → last < 2 ^ 63
    → (last < candidate now last) × (1 < candidate now last) × (candidate now last ≤ 2 ^ 63)
unfolding candidate
candidate_lem now last a b c = (ground arith, ground arith, ground arith)

load_step-Inv :
    (s : Stamps) (i now : ℕ) (c : Call) → InRange s (load i now) → Inv s → Inv (load_step i now c s)
unfolding load_step
load_step-Inv s i now idle r v = record {
  stamped = v.stamped;
  reserved_hi = v.reserved_hi;
  durable = v.durable;
  in_calls =
      InCall-set_call s.version_hi s.calls i _ v.in_calls
        (candidate_lem now s.last_version r.0 r.1 r.2);
}
load_step-Inv s i now (loaded last next) r v = v
load_step-Inv s i now (reserved last next) r v = v

-- The ceiling after an extension that was needed and written.
raised-Inv :
    (s : Stamps) (i last next : ℕ)
    → last < next
    → 1 < next
    → next ≤ 2 ^ 63
    → s.version_hi < next
    → Inv s
    → let new_hi : ℕ = (next + version_reservation_block) % u64 in
      Inv (record s {
        version_hi = new_hi;
        durable_hwm = some new_hi;
        calls = set_call s.calls i (reserved last next);
      })
raised-Inv s i last next a b c d v =
    let new_hi : ℕ = (next + version_reservation_block) % u64 in
    let higher : s.version_hi ≤ new_hi = omega arith in
    record {
      stamped = v.stamped;
      reserved_hi = omega (arith, v.reserved_hi);
      durable = omega arith;
      in_calls =
          InCall-set_call new_hi s.calls i (reserved last next)
            (λ j. InCall-mono s.version_hi new_hi (s.calls j) higher (v.in_calls j))
            (a, b, omega arith);
    }

set_call-Inv :
    (s : Stamps) (i : ℕ) (c : Call)
    → InCall s.version_hi c
    → Inv s
    → Inv (record s { calls = set_call s.calls i c })
set_call-Inv s i c h v = record {
  stamped = v.stamped;
  reserved_hi = v.reserved_hi;
  durable = v.durable;
  in_calls = InCall-set_call s.version_hi s.calls i c v.in_calls h;
}

reserve_step-Inv :
    (s : Stamps) (i : ℕ) (written : Bool) (c : Call)
    → InCall s.version_hi c
    → Inv s
    → Inv (reserve_step i written c s)
unfolding reserve_step
reserve_step-Inv s i written idle h v = v
reserve_step-Inv s i written (reserved last next) h v = v
reserve_step-Inv s i written (loaded last next) h v = elim (Bool-cases (leb next s.version_hi)) [
  | inl covered ↦
      rw covered (set_call-Inv s i (reserved last next) (h.0, h.1, leb→le _ _ covered) v)
  | inr needed ↦ elim (Bool-cases written) [
    | inl ok ↦ rw (needed, ok) (raised-Inv s i last next h.0 h.1 h.2 (ground arith) v)
    | inr failed ↦ rw (needed, failed) (set_call-Inv s i idle tt v)
  ]
]

swap_step-Inv :
    (s : Stamps) (i : ℕ) (c : Call) → InCall s.version_hi c → Inv s → Inv (swap_step i c s)
unfolding swap_step
swap_step-Inv s i idle h v = v
swap_step-Inv s i (loaded last next) h v = v
swap_step-Inv s i (reserved last next) h v = elim (Bool-cases (s.last_version == last)) [
  | inl won ↦
      let e : s.last_version ≡ last = (==_iff _ _).0 won in
      rw won (record {
        stamped = (
          h.1,
          omega arith,
          Issued-mono (suc s.last_version) next s.issued (omega arith) v.stamped,
        );
        reserved_hi = h.2;
        durable = v.durable;
        in_calls = InCall-set_call s.version_hi s.calls i idle v.in_calls tt;
      })
  | inr lost ↦ rw lost (set_call-Inv s i idle tt v)
]

restart-Inv :
    (s : Stamps) (d : Option ℕ) → s.durable_hwm ≡ d → Inv s → Inv (load_version_reservation s)
unfolding load_version_reservation
restart-Inv s none e v =
    let empty : s.last_version ≤ 0 = omega (arith, v.reserved_hi, v.durable, ap hwm e) in
    rw e (record {
      stamped = Issued-mono (suc s.last_version) 1 s.issued (omega arith) v.stamped;
      reserved_hi = omega arith;
      durable = omega arith;
      in_calls = λ i. tt;
    })
restart-Inv s (some n) e v =
    let below : s.last_version ≤ n = omega (arith, v.reserved_hi, v.durable, ap hwm e) in
    rw e (record {
      stamped = Issued-mono (suc s.last_version) (suc n) s.issued (omega arith) v.stamped;
      reserved_hi = omega arith;
      durable = omega arith;
      in_calls = λ i. tt;
    })

-- One step of any caller, or a restart, keeps the invariant.
pub step-Inv : (s : Stamps) (e : Event) → InRange s e → Inv s → Inv (step s e)
unfolding step
step-Inv s (load i now) r v = load_step-Inv s i now (s.calls i) r v
step-Inv s (reserve i written) r v = reserve_step-Inv s i written (s.calls i) (v.in_calls i) v
step-Inv s (swap i) r v = swap_step-Inv s i (s.calls i) (v.in_calls i) v
step-Inv s restart r v = restart-Inv s s.durable_hwm refl v

run-Inv : (s : Stamps) (es : List Event) → AllInRange s es → Inv s → Inv (run s es)
unfolding run
run-Inv s [] r v = v
run-Inv s (e ∷ es) r v = run-Inv (step s e) es r.1 (step-Inv s e r.0 v)

-- However calls interleave, however the clock goes back and forth and however often the process restarts,
-- with failing writes of the ceiling among it: the stamps handed out rise strictly, none is 0 or the legacy
-- version, and the durable ceiling is at or above them all. Every reading of the clock is above 1 and below
-- 2 ^ 63, and so is the last stamp below 2 ^ 63 whenever a call starts.
pub run-Issued :
    (es : List Event)
    → AllInRange new_stamps es
    → let s = run new_stamps es in
      Issued (suc s.last_version) s.issued × (s.last_version ≤ hwm s.durable_hwm)
run-Issued es r = let v = run-Inv new_stamps es r new_stamps-Inv in (v.stamped, omega (arith, v))
