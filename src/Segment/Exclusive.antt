-- ===== src/Segment/Exclusive.antt =====
-- storage/segment/manager.go: a segment is written by the one caller that reserved it.
use ocache.Base.{
  Bool, Bool-cases, Bytes, List, Option, [], ap, bytes_eq, bytes_eq_iff, bytes_eq_refl, false,
  if-each, inl, inr, is_empty, leb, leb→le, none, not, refl, some, subst, true, ℕ, ◌&&◌, ◌+◌, ◌||◌,
  ◌∙◌, ◌∷◌, ◌≡◌, ◌≤◌, ◌⊎◌,
}
use ocache.Base.Assoc.{lookup, lookup-insert}
use ocache.Segment.Write.{Segment, new_segment_with_reservation}
use ocache.Segment.Reserve.{
  AcquireIo, Manager, acquire_open_segment_with_reservation, create_new_segment, find_open,
  hand_out, is_free_for, is_open, pick, reserve, suits, take_segment,
}

-- The segment before it was taken: open, with room, and free for the caller.
abbrev pub Suited : Bytes → ℕ → Segment → Type 0
Suited caller needed old =
    (is_open old ≡ true)
    × (old.size + needed ≤ old.max_supported_size)
    × ((is_empty old.reserved_by ≡ true) ⊎ (old.reserved_by ≡ caller))

abbrev pub Taken : Bytes → ℕ → Option Segment → Segment → Type 0
Taken caller needed before seg =
    (old : Segment) × (before ≡ some old)
    × Suited caller needed old
    × (seg ≡ record old { reserved_by = caller })

and-parts : (a b : Bool) → a && b ≡ true → (a ≡ true) × (b ≡ true)
and-parts true b h = (refl, h)
and-parts false b h = absurd cc

or-parts : (a b : Bool) → a || b ≡ true → (a ≡ true) ⊎ (b ≡ true)
or-parts true b h = inl refl
or-parts false b h = inr h

suits-Suited :
    (caller : Bytes) (needed : ℕ) (seg : Segment)
    → suits caller needed seg ≡ true
    → Suited caller needed seg
unfolding suits is_free_for
suits-Suited caller needed seg h =
    let roomy : Bool = leb (seg.size + needed) seg.max_supported_size in
    let both = and-parts (is_open seg && roomy) (is_free_for caller seg) h in
    let first = and-parts (is_open seg) roomy both.0 in
    (
      first.0,
      leb→le (seg.size + needed) seg.max_supported_size first.1,
      elim (or-parts (is_empty seg.reserved_by) (bytes_eq seg.reserved_by caller) both.1) [
        | inl nobody ↦ inl nobody
        | inr own ↦ inr ((bytes_eq_iff seg.reserved_by caller).0 own)
      ],
    )

-- A reservation fails, or the segment is the caller's.
reserve-cases :
    (caller : Bytes) (seg : Segment)
    → ((reserve caller seg).0 ≡ false)
      ⊎ (reserve caller seg ≡ (true, record seg { reserved_by = caller }))
unfolding reserve
reserve-cases caller seg = elim (Bool-cases (is_empty caller)) [
  | inl e ↦ inl (rw e refl)
  | inr e ↦ elim (Bool-cases (is_open seg)) [
    | inr f ↦ inl (rw (e, f) refl)
    | inl f ↦ elim (Bool-cases (is_free_for caller seg)) [
      | inr g ↦ inl (rw (e, f, g) refl)
      | inl g ↦ inr (rw (e, f, g) refl)
    ]
  ]
]

take_segment-Taken :
    (io : AcquireIo) (caller : Bytes) (needed : ℕ) (path : Bytes) (before : Option Segment)
    (seg : Segment)
    → take_segment io caller needed path before ≡ some seg
    → Taken caller needed before seg
take_segment-Taken io caller needed path none seg h = absurd cc
take_segment-Taken io caller needed path (some old) seg h =
    let asked : Bool = not (io.busy path) && not (io.finalized path) && suits caller needed old in
    elim (Bool-cases asked) [
      | inr e ↦
          let nothing : take_segment io caller needed path (some old) ≡ none = rw e refl in
          absurd cc
      | inl e ↦
          let suited =
            (and-parts (not (io.busy path) && not (io.finalized path)) (suits caller needed old)
              e).1 in
          elim (reserve-cases caller old) [
            | inl failed ↦
                let nothing : take_segment io caller needed path (some old) ≡ none =
                  rw (e, failed) refl in
                absurd cc
            | inr got ↦
                let given : take_segment io caller needed path (some old)
                    ≡ some (record old { reserved_by = caller }) =
                  rw (e, got) refl in
                (old, refl, suits-Suited caller needed old suited, cc)
          ]
    ]

pick-Taken :
    (caller : Bytes) (needed : ℕ) (segments : List (Bytes × Segment)) (p path : Bytes)
    (seg : Segment) (o : Option Segment) (rest : Option (Bytes × Segment))
    → ((s : Segment) → o ≡ some s → Taken caller needed (lookup p segments) s)
    → (rest ≡ some (path, seg) → Taken caller needed (lookup path segments) seg)
    → pick p o rest ≡ some (path, seg)
    → Taken caller needed (lookup path segments) seg
pick-Taken caller needed segments p path seg none rest first onward h = onward h
pick-Taken caller needed segments p path seg (some s) rest first onward h =
    let here : p ≡ path = cc in
    let it : s ≡ seg = cc in
    subst (λ q. Taken caller needed (lookup q segments) seg) here (first seg (ap some it))

find_open-Taken :
    (io : AcquireIo) (caller : Bytes) (needed : ℕ) (segments : List (Bytes × Segment))
    (paths : List Bytes) (path : Bytes) (seg : Segment)
    → find_open io caller needed segments paths ≡ some (path, seg)
    → Taken caller needed (lookup path segments) seg
unfolding find_open
find_open-Taken io caller needed segments [] path seg h = absurd cc
find_open-Taken io caller needed segments (p ∷ paths) path seg h =
    pick-Taken caller needed segments p path seg
      (take_segment io caller needed p (lookup p segments))
      (find_open io caller needed segments paths)
      (take_segment-Taken io caller needed p (lookup p segments))
      (find_open-Taken io caller needed segments paths path seg) h

-- Who holds what after a successful call: the path's segment is reserved by the caller, and it was an
-- open one with room that nobody else had reserved, or it is new; every other segment is as it was.
abbrev pub Acquired : Bytes → ℕ → Manager → Option (Bytes × Manager) → Type 0
Acquired caller needed m none = Unit
Acquired caller needed m (some (path, m')) =
    ((seg : Segment) × (lookup path m'.segments ≡ some seg)
      × (seg.reserved_by ≡ caller)
      × (Taken caller needed (lookup path m.segments) seg
          ⊎ (seg ≡ new_segment_with_reservation path m.segment_size caller)))
    × ((q : Bytes) → bytes_eq q path ≡ false → lookup q m'.segments ≡ lookup q m.segments)

create_new_segment-Acquired :
    (io : AcquireIo) (caller : Bytes) (needed : ℕ) (m : Manager)
    → Acquired caller needed m (create_new_segment io caller m)
unfolding create_new_segment
create_new_segment-Acquired io caller needed m =
    let fresh : Segment = new_segment_with_reservation io.new_path m.segment_size caller in
    if-each (Acquired caller needed m) io.creates
      (
        (
          fresh,
          lookup-insert io.new_path io.new_path fresh m.segments
              ∙ rw (bytes_eq_refl io.new_path) refl,
          refl,
          inr refl,
        ),
        λ q other. lookup-insert q io.new_path fresh m.segments ∙ rw other refl,
      )
      tt

hand_out-Acquired :
    (io : AcquireIo) (caller : Bytes) (needed : ℕ) (m : Manager) (o : Option (Bytes × Segment))
    → ((path : Bytes) (seg : Segment)
        → o ≡ some (path, seg)
        → Taken caller needed (lookup path m.segments) seg)
    → Acquired caller needed m (hand_out io caller m o)
hand_out-Acquired io caller needed m none h = create_new_segment-Acquired io caller needed m
hand_out-Acquired io caller needed m (some (path, seg)) h =
    let taken = h path seg refl in
    (
      (
        seg,
        lookup-insert path path seg m.segments ∙ rw (bytes_eq_refl path) refl,
        ap (λ (x : Segment). x.reserved_by) taken.3,
        inl taken,
      ),
      λ q other. lookup-insert q path seg m.segments ∙ rw other refl,
    )

-- A call that returns a segment has reserved it for its caller: it is new, or it was open, had the room
-- asked for, and was reserved by nobody or already by that caller, never by another; and no other segment
-- has changed. Segments may be busy or finalized meanwhile, in any combination.
pub acquire_open_segment_with_reservation-Acquired :
    (io : AcquireIo) (caller : Bytes) (needed : ℕ) (m : Manager)
    → Acquired caller needed m (acquire_open_segment_with_reservation io caller needed m)
unfolding acquire_open_segment_with_reservation
acquire_open_segment_with_reservation-Acquired io caller needed m =
    if-each (Acquired caller needed m) (is_empty caller) tt (
      hand_out-Acquired io caller needed m (find_open io caller needed m.segments m.open_segments)
        (find_open-Taken io caller needed m.segments m.open_segments))
