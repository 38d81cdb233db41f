-- ===== src/Version/Returns.antt =====
-- storage/cas.go: the loop of nextVersion ends.
use ocache.Base.{
  ==_iff, Bool, Bool-cases, List, Option, [], ap, arith, false, if-each, inl, inr, leb, none, refl,
  some, subst, sym, true, ℕ, ◌==◌, ◌∙◌, ◌∷◌, ◌≡◌, ◌⊎◌,
}
use ocache.Version.Stamps.{
  Call, Event, Stamps, Turn, candidate, extend_version_reservation, idle, load, load_step, loaded,
  next_version, reserve, reserve_step, reserved, restart, run, set_call, settle_turn, step, swap,
  swap_step, take_turn,
}

-- A step of another call than this one.
abbrev pub OfOther : ℕ → Event → Type 0
OfOther i (load j now) = (j == i) ≡ false
OfOther i (reserve j written) = (j == i) ≡ false
OfOther i (swap j) = (j == i) ≡ false
OfOther i restart = ⊥

-- A load or a reservation, which issues nothing.
abbrev pub Still : Event → Type 0
Still (load j now) = Unit
Still (reserve j written) = Unit
Still (swap j) = ⊥
Still restart = ⊥

abbrev pub EveryEvent : (Event → Type 0) → List Event → Type 0
EveryEvent P [] = Unit
EveryEvent P (e ∷ es) = P e × EveryEvent P es

-- The turns leave this call's place to itself, and one of them is disturbed by no swap.
abbrev pub OfOthers : ℕ → List Turn → Type 0
OfOthers i [] = Unit
OfOthers i (t ∷ ts) =
    (EveryEvent (OfOther i) t.before_reserve × EveryEvent (OfOther i) t.before_swap) × OfOthers i ts

abbrev pub HasStill : List Turn → Type 0
HasStill [] = ⊥
HasStill (t ∷ ts) =
    (EveryEvent Still t.before_reserve × EveryEvent Still t.before_swap) ⊎ HasStill ts

set_call-other :
    (calls : ℕ → Call) (i j : ℕ) (c : Call) → (j == i) ≡ false → set_call calls j c i ≡ calls i
set_call-other calls i j c h = rw h refl

set_call-same : (calls : ℕ → Call) (i : ℕ) (c : Call) → set_call calls i c i ≡ c
set_call-same calls i c = rw ((==_iff i i).1 refl) refl

load_step-other :
    (i j now : ℕ) (c : Call) (s : Stamps)
    → (j == i) ≡ false
    → (load_step j now c s).calls i ≡ s.calls i
unfolding load_step
load_step-other i j now idle s h = set_call-other s.calls i j _ h
load_step-other i j now (loaded last next) s h = refl
load_step-other i j now (reserved last next) s h = refl

extend-calls :
    (next : ℕ) (written : Bool) (s : Stamps)
    → ((extend_version_reservation next written s).0.calls ≡ s.calls)
      × ((extend_version_reservation next written s).0.last_version ≡ s.last_version)
unfolding extend_version_reservation
extend-calls next written s =
    let Same : Stamps × Bool → Type 0 =
      λ r. (r.0.calls ≡ s.calls) × (r.0.last_version ≡ s.last_version) in
    if-each Same (leb next s.version_hi) (refl, refl)
      (if-each Same written (refl, refl) (refl, refl))

reserve_step-other :
    (i j : ℕ) (written : Bool) (c : Call) (s : Stamps)
    → (j == i) ≡ false
    → (reserve_step j written c s).calls i ≡ s.calls i
unfolding reserve_step
reserve_step-other i j written idle s h = refl
reserve_step-other i j written (reserved last next) s h = refl
reserve_step-other i j written (loaded last next) s h =
    set_call-other (extend_version_reservation next written s).0.calls i j _ h
    ∙ ap (λ (f : ℕ → Call). f i) ((extend-calls next written s).0)

swap_step-other :
    (i j : ℕ) (c : Call) (s : Stamps) → (j == i) ≡ false → (swap_step j c s).calls i ≡ s.calls i
unfolding swap_step
swap_step-other i j idle s h = refl
swap_step-other i j (loaded last next) s h = refl
swap_step-other i j (reserved last next) s h =
    if-each (λ (r : Stamps). r.calls i ≡ s.calls i) (s.last_version == last)
      (set_call-other s.calls i j idle h) (set_call-other s.calls i j idle h)

step-other : (i : ℕ) (e : Event) (s : Stamps) → OfOther i e → (step s e).calls i ≡ s.calls i
unfolding step
step-other i (load j now) s h = load_step-other i j now (s.calls j) s h
step-other i (reserve j written) s h = reserve_step-other i j written (s.calls j) s h
step-other i (swap j) s h = swap_step-other i j (s.calls j) s h
step-other i restart s h = absurd h

run-other :
    (i : ℕ) (es : List Event) (s : Stamps)
    → EveryEvent (OfOther i) es
    → (run s es).calls i ≡ s.calls i
unfolding run
run-other i [] s h = refl
run-other i (e ∷ es) s h = run-other i es (step s e) h.1 ∙ step-other i e s h.0

reserve_step-Still :
    (j : ℕ) (written : Bool) (c : Call) (s : Stamps)
    → (reserve_step j written c s).last_version ≡ s.last_version
unfolding reserve_step
reserve_step-Still j written idle s = refl
reserve_step-Still j written (reserved last next) s = refl
reserve_step-Still j written (loaded last next) s = (extend-calls next written s).1

load_step-Still :
    (j now : ℕ) (c : Call) (s : Stamps) → (load_step j now c s).last_version ≡ s.last_version
unfolding load_step
load_step-Still j now idle s = refl
load_step-Still j now (loaded last next) s = refl
load_step-Still j now (reserved last next) s = refl

step-Still : (e : Event) (s : Stamps) → Still e → (step s e).last_version ≡ s.last_version
unfolding step
step-Still (load j now) s h = load_step-Still j now (s.calls j) s
step-Still (reserve j written) s h = reserve_step-Still j written (s.calls j) s
step-Still (swap j) s h = absurd h
step-Still restart s h = absurd h

run-Still :
    (es : List Event) (s : Stamps) → EveryEvent Still es → (run s es).last_version ≡ s.last_version
unfolding run
run-Still [] s h = refl
run-Still (e ∷ es) s h = run-Still es (step s e) h.1 ∙ step-Still e s h.0

load_step-own :
    (i now : ℕ) (c : Call) (s : Stamps)
    → c ≡ idle
    → (load_step i now c s).calls i ≡ loaded s.last_version (candidate now s.last_version)
unfolding load_step
load_step-own i now idle s e = set_call-same s.calls i _
load_step-own i now (loaded last next) s e = absurd cc
load_step-own i now (reserved last next) s e = absurd cc

-- A call that has a candidate is ended by its reservation or has it reserved.
Reserved : ℕ → ℕ → Call → Type 0
Reserved last next c = (c ≡ idle) ⊎ (c ≡ reserved last next)

reserve_step-own :
    (i last next : ℕ) (written : Bool) (c : Call) (s : Stamps)
    → c ≡ loaded last next
    → Reserved last next ((reserve_step i written c s).calls i)
unfolding reserve_step Reserved
reserve_step-own i last next written idle s e = absurd cc
reserve_step-own i last next written (reserved l n) s e = absurd cc
reserve_step-own i last next written (loaded l n) s e =
    let r = extend_version_reservation n written s in
    elim (Bool-cases (r.1)) [
      | inl done ↦ inr (
          set_call-same (r.0.calls) i _
          ∙ rw done (let p : l ≡ last = ground arith in let q : n ≡ next = ground arith in cc))
      | inr failed ↦ inl (set_call-same (r.0.calls) i _ ∙ rw failed refl)
    ]

take_turn-Reserved :
    (i : ℕ) (t : Turn) (s : Stamps)
    → s.calls i ≡ idle
    → EveryEvent (OfOther i) t.before_reserve
    → EveryEvent (OfOther i) t.before_swap
    → Reserved s.last_version (candidate t.now s.last_version) ((take_turn i t s).calls i)
unfolding take_turn step Reserved
take_turn-Reserved i t s start others others' =
    let last : ℕ = s.last_version in
    let next : ℕ = candidate t.now last in
    let a : Stamps = load_step i t.now (s.calls i) s in
    let b : Stamps = run a t.before_reserve in
    let c : Stamps = reserve_step i t.written (b.calls i) b in
    let at : b.calls i ≡ loaded last next =
      run-other i t.before_reserve a others ∙ load_step-own i t.now (s.calls i) s start in
    subst (Reserved last next) (sym (run-other i t.before_swap c others'))
      (reserve_step-own i last next t.written (b.calls i) b at)

take_turn-Still :
    (i : ℕ) (t : Turn) (s : Stamps)
    → EveryEvent Still t.before_reserve
    → EveryEvent Still t.before_swap
    → (take_turn i t s).last_version ≡ s.last_version
unfolding take_turn
take_turn-Still i t s still still' =
    let a : Stamps = step s (load i t.now) in
    let b : Stamps = run a t.before_reserve in
    run-Still t.before_swap (step b (reserve i t.written)) still'
    ∙ step-Still (reserve i t.written) b tt
    ∙ run-Still t.before_reserve a still
    ∙ step-Still (load i t.now) s tt

swap_step-own :
    (i last next : ℕ) (c : Call) (s : Stamps)
    → c ≡ reserved last next
    → ((swap_step i c s).calls i ≡ idle)
      × ((s.last_version == last) ≡ true
          → ((swap_step i c s).last_version ≡ next) × ((swap_step i c s).issued ≡ next ∷ s.issued))
unfolding swap_step
swap_step-own i last next idle s e = absurd cc
swap_step-own i last next (loaded l n) s e = absurd cc
swap_step-own i last next (reserved l n) s e = (
  if-each (λ (r : Stamps). r.calls i ≡ idle) (s.last_version == l) (set_call-same s.calls i idle)
      (set_call-same s.calls i idle),
  λ won.
      let p : l ≡ last = ground arith in
      let q : n ≡ next = ground arith in
      let go : (s.last_version == l) ≡ true = ap (λ x. s.last_version == x) p ∙ won in
      rw go (q, ap (λ x. x ∷ s.issued) q),
)

-- The call has answered: an error, or the stamp that was the last one issued.
abbrev pub Answered : Option (Option ℕ) × Stamps → Type 0
Answered (none, s) = ⊥
Answered (some none, s) = Unit
Answered (some (some n), s) = (s.last_version ≡ n) × ((rest : List ℕ) × (s.issued ≡ n ∷ rest))

settle_turn-Answered :
    (i last next : ℕ) (s : Stamps) (rest : Option (Option ℕ) × Stamps)
    → Reserved last next (s.calls i)
    → (s.last_version ≡ last) ⊎ ((step s (swap i)).calls i ≡ idle → Answered rest)
    → Answered (settle_turn (s.calls i) s (step s (swap i)) rest)
unfolding Reserved step
settle_turn-Answered i last next s rest (inl e) later =
    subst (λ c. Answered (settle_turn c s (swap_step i (s.calls i) s) rest)) (sym e) tt
settle_turn-Answered i last next s rest (inr e) later =
    let own = swap_step-own i last next (s.calls i) s e in
    subst (λ c. Answered (settle_turn c s (swap_step i (s.calls i) s) rest)) (sym e)
      (elim (Bool-cases (s.last_version == last)) [
        | inl won ↦ rw won ((own.1 won).0, (s.issued, (own.1 won).1))
        | inr lost ↦ rw lost (elim later [
          | inl same ↦ let t : (s.last_version == last) ≡ true = (==_iff _ _).1 same in absurd cc
          | inr go ↦ go (own.0)
        ])
      ])

-- Whatever the other calls do between the steps of a call of nextVersion, and whatever clock and writes
-- answer, the call returns at the latest in the first iteration in which no other call swaps (loads and
-- reservations of others do not matter): with an error, or with a stamp that is the last stamp then and the
-- newest of those issued. The call begins idle, and there is no restart.
pub next_version-Answered :
    (i : ℕ) (ts : List Turn) (s : Stamps)
    → s.calls i ≡ idle
    → OfOthers i ts
    → HasStill ts
    → Answered (next_version i ts s)
unfolding next_version
next_version-Answered i [] s start others still = absurd still
next_version-Answered i (t ∷ ts) s start ((o, o'), others) still =
    settle_turn-Answered i s.last_version (candidate t.now s.last_version) (take_turn i t s) _
      (take_turn-Reserved i t s start o o')
      (elim still [
        | inl (q, q') ↦ inl (take_turn-Still i t s q q')
        | inr more ↦ inr (λ idle_again.
            next_version-Answered i ts (step (take_turn i t s) (swap i)) idle_again others more)
      ])
