-- ===== src/Store/Placed.antt =====
-- storage/storage.go: what one read of a byteRangeReader that is at its place does.
use ocache.Base.{
  Bool, Bool-cases, Bytes, Option, [], ap, arith, drop, false, if◌then◌else◌, inl, inr, leb, length,
  none, refl, some, suc, take, true, zero, ℕ, ◌++◌, ◌+◌, ◌-◌, ◌∙◌, ◌≡◌, ◌≤◌, ◌⊎◌,
}
use ocache.Base.Slices.{drop-read, gives, take-append-drop, take-drop_eq}
use ocache.Store.Range.{ByteRangeReader, ReadError, Served, read_eof, read_limited, smaller}

-- A reader of which the wrapped one stands where it believes.
abbrev pub placed : Bytes → Bool → ℕ → ℕ → Bool → ℕ → ByteRangeReader
placed content seekable start stop seeked p = record {
  source = record { content = content; offset = p; seekable = seekable };
  start = start;
  stop = stop;
  position = p;
  seeked = seeked;
}

-- The bytes from an offset to the inclusive end; an end of 0 is no limit.
abbrev pub wanted : Bytes → ℕ → ℕ → Bytes
wanted content zero p = drop p content
wanted content (suc n) p = take (suc (suc n) - p) (drop p content)

pub smaller-AtMost : (a b : ℕ) → smaller a b ≤ b × (1 ≤ a → 1 ≤ b → 1 ≤ smaller a b)
smaller-AtMost a b = (ground arith, λ x y. ground arith)

abbrev limited : ℕ → ℕ → ℕ → ℕ
limited n p room = if leb (suc (suc n) + 1) (p + room) then suc n - p + 1 else room

past_end : (n p : ℕ) → leb (suc (suc n)) p ≡ true → suc (suc n) - p ≡ 0
past_end n p h = ground arith

in_range :
    (n p room most : ℕ)
    → leb (suc (suc n)) p ≡ false
    → smaller most (limited n p room) ≤ suc (suc n) - p
in_range n p room most h = ground arith

some_room : (n p room : ℕ) → leb (suc (suc n)) p ≡ false → 1 ≤ room → 1 ≤ limited n p room
some_room n p room h y = ground arith

module _ (content : Bytes) (seekable seeked : Bool) (start : ℕ) where
  abbrev pub at : ℕ → ℕ → ByteRangeReader
  at stop p = placed content seekable start stop seeked p

  abbrev pub Step : ℕ → Served → ℕ → ℕ → Type 0
  Step stop v room p =
      (got : Bytes) × (err : Option ReadError) × (read_limited v room (at stop p)
        ≡ ((got, err), at stop (p + length got)))
      × (got ++ wanted content stop (p + length got) ≡ wanted content stop p)
      × (v.fails ≡ none
          → 1 ≤ v.most
          → 1 ≤ room
          → (wanted content stop p ≡ []) ⊎ ((1 ≤ length got) × (err ≡ none)))

  pub step : (stop : ℕ) (v : Served) (room p : ℕ) → Step stop v room p
  unfolding read_limited
  step zero v room p =
      let m : ℕ = smaller v.most room in
      let got : Bytes = take m (drop p content) in
      (
        got,
        v.fails,
        refl,
        ap (◌++◌ got) (drop-read p m content) ∙ take-drop_eq m (drop p content),
        (λ quiet x y. elim (gives m 0 (drop p content) ((smaller-AtMost v.most room).1 x y)) [
          | inl e ↦ inl e.1
          | inr e ↦ inr (e, quiet)
        ]),
      )
  step (suc n) v room p =
      let limit : ℕ = limited n p room in
      let m : ℕ = smaller v.most limit in
      let got : Bytes = take m (drop p content) in
      elim (Bool-cases (leb (suc (suc n)) p)) [
        | inl past ↦ rw past (
          [],
          some read_eof,
          ap (λ i. (([], some read_eof), at (suc n) i)) (omega arith),
          ap (λ i. take (suc (suc n) - i) (drop i content)) (omega arith),
          λ quiet x y. inl (ap (λ i. take i (drop p content)) (past_end n p past)),
        )
        | inr inside ↦ rw inside (
          got,
          v.fails,
          refl,
          ap (λ i. got ++ take (suc (suc n) - (p + length got)) i) (drop-read p m content)
              ∙ ap (λ i. got ++ take i (drop m (drop p content))) (omega arith)
              ∙ take-append-drop m (suc (suc n) - p) (drop p content)
                  (in_range n p room v.most inside),
          (λ quiet x y.
              elim (gives m (suc (suc n) - p) (drop p content)
                ((smaller-AtMost v.most limit).1 x (some_room n p room inside y))) [
                  | inl e ↦ inl e.0
                  | inr e ↦ inr (e, quiet)
                ]),
        )
      ]
