-- ===== src/Memory/Range.antt =====
-- client/memory.go: Get and GetRange, whose range is inclusive.
use ocache.Base.{
  Bool-cases, Bytes, Option, [], ap, arith, drop, if◌then◌else◌, inl, inr, leb, length, none, refl,
  some, suc, sym, take, zero, ℕ, ◌++◌, ◌+◌, ◌-◌, ◌<◌, ◌||◌, ◌∙◌, ◌∷◌, ◌≡◌, ◌≤◌, ◌⊎◌,
}
use ocache.Base.Int.{negsuc, pos, pos_part, ℤ}
use ocache.Base.Assoc.{lookup}
use ocache.Memory.State.{CacheEntry, MemoryCache, is_past}

pub data Ranged : Type 0 where
  bytes : Bytes → Ranged
  range_not_found invalid_range : Ranged

-- The index behind the last byte: `end` itself is included, and 0 or less stands for the value's end.
unfoldable pub range_end : ℕ → ℤ → ℕ
range_end len (pos zero) = len
range_end len (negsuc n) = len
range_end len (pos (suc e)) = if leb len (suc e) then len else suc e + 1

-- A start at or behind the value's end is refused, and so is a start behind `end`.
unfoldable pub slice_range : Bytes → ℤ → ℤ → Ranged
unfolding range_end
slice_range value start end =
    let s : ℕ = pos_part start in
    let e : ℕ = range_end (length value) end in
    if leb (length value) s || leb e s then invalid_range else bytes (take (e - s) (drop s value))

unfoldable pub range_of : ℕ → Option CacheEntry → ℤ → ℤ → Ranged
unfolding slice_range is_past
range_of now none start end = range_not_found
range_of now (some entry) start end =
    if is_past now entry.expires_at then range_not_found else slice_range entry.value start end

-- The read of GetRange; a past entry is dropped as by Get.
unfoldable pub get_range : ℕ → Bytes → ℤ → ℤ → MemoryCache → Ranged
unfolding range_of
get_range now key start end m = range_of now (lookup key m.entries) start end

take-drop : (n : ℕ) (xs : Bytes) → take n xs ++ drop n xs ≡ xs
take-drop zero xs = refl
take-drop (suc n) [] = refl
take-drop (suc n) (x ∷ xs) = ap (◌∷◌ x) (take-drop n xs)

drop_nil : (n : ℕ) → drop {A = ℕ} n [] ≡ []
drop_nil zero = refl
drop_nil (suc n) = refl

drop-drop : (n k : ℕ) (xs : Bytes) → drop k (drop n xs) ≡ drop (n + k) xs
drop-drop zero k xs = ap (λ j. drop j xs) (omega arith)
drop-drop (suc n) k [] = drop_nil k ∙ sym (drop_nil (suc n + k))
drop-drop (suc n) k (x ∷ xs) =
    let e : suc n + k ≡ suc (n + k) = omega arith in
    drop-drop n k xs ∙ ap (λ j. drop j (x ∷ xs)) (sym e)

length-drop : (n : ℕ) (xs : Bytes) → length (drop n xs) ≡ length xs - n
length-drop zero xs = omega arith
length-drop (suc n) [] = omega arith
length-drop (suc n) (x ∷ xs) = omega (arith, length-drop n xs)

length-take : (n : ℕ) (xs : Bytes) → n ≤ length xs → length (take n xs) ≡ n
length-take zero xs h = refl
length-take (suc n) [] h = absurd (omega arith)
length-take (suc n) (x ∷ xs) h = omega (arith, length-take n xs (omega arith))

range_end_le : (len : ℕ) (end : ℤ) → range_end len end ≤ len
unfolding range_end
range_end_le len (pos zero) = omega arith
range_end_le len (negsuc n) = omega arith
range_end_le len (pos (suc e)) = ground arith

-- The bytes of a range that is not refused, and where they stand in the value.
abbrev pub Cut : Bytes → ℕ → ℕ → Ranged → Type 0
Cut value s e (bytes b) =
    (value ≡ take s value ++ (b ++ drop e value))
    × (length b ≡ e - s)
    × (s < e)
    × (e ≤ length value)
Cut value s e range_not_found = ⊥
Cut value s e invalid_range = (length value ≤ s) ⊎ (e ≤ s)

Cut-take :
    (value : Bytes) (s e : ℕ)
    → s < e
    → e ≤ length value
    → Cut value s e (bytes (take (e - s) (drop s value)))
Cut-take value s e h g =
    let whole : s + (e - s) ≡ e = omega arith in
    (
      sym (take-drop s value)
          ∙ ap (◌++◌ (take s value)) (
              sym (take-drop (e - s) (drop s value))
              ∙ ap (◌++◌ (take (e - s) (drop s value)))
                  (drop-drop s (e - s) value ∙ ap (λ j. drop j value) whole)),
      length-take (e - s) (drop s value) (omega (arith, length-drop s value)),
      h,
      g,
    )

-- For every start and end, negative ones included, the code answers the bytes from the start up to the
-- end, at least one of them, none outside the value, or refuses a range that has no byte.
pub slice_range-Cut :
    (value : Bytes) (start end : ℤ)
    → Cut value (pos_part start) (range_end (length value) end) (slice_range value start end)
unfolding slice_range
slice_range-Cut value start end =
    let s : ℕ = pos_part start in
    let e : ℕ = range_end (length value) end in
    elim (Bool-cases (leb (length value) s || leb e s)) [
      | inl refused ↦ rw refused (ground arith)
      | inr taken ↦ rw taken (Cut-take value s e (ground arith) (range_end_le (length value) end))
    ]
