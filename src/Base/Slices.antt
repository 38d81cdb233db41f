-- ===== src/Base/Slices.antt =====
-- Lists cut at an offset, as a reader cuts what it holds.
use Prim.Native.Nat.{ℕ, zero, suc, ◌+◌, ◌-◌, ◌≤◌}
use mathlib.Core.Path.{◌≡◌, refl, sym, ap, ◌∙◌}
use mathlib.Core.Logic.{◌⊎◌, inl, inr}
use mathlib.Core.List.{List, [], ◌∷◌, ◌++◌}
use native.Mathlib.Omega.{arith}
use ocache.Base.Tests.{Bool-cases, leb}
use ocache.Base.Lists.{drop, length, take}

minus_zero : (k : ℕ) → k - 0 ≡ k
minus_zero k = omega arith

minus_suc : (k j : ℕ) → suc k - suc j ≡ k - j
minus_suc k j = omega arith

suc_plus : (p k : ℕ) → suc p + k ≡ suc (p + k)
suc_plus p k = omega arith

module _ {ℓ} {A : Type ℓ} where
  take-nil : (k : ℕ) → take {A = A} k [] ≡ []
  take-nil zero = refl
  take-nil (suc k) = refl

  pub take-append-drop :
      (m k : ℕ) (xs : List A)
      → m ≤ k
      → take m xs ++ take (k - length (take m xs)) (drop m xs) ≡ take k xs
  take-append-drop zero k xs h = rw (minus_zero k) refl
  take-append-drop (suc m) zero xs h = absurd (omega arith)
  take-append-drop (suc m) (suc k) [] h = take-nil (suc k - 0)
  take-append-drop (suc m) (suc k) (x ∷ xs) h =
      ap (λ i. x ∷ (take m xs ++ take i (drop m xs))) (minus_suc k (length (take m xs)))
      ∙ ap (◌∷◌ x) (take-append-drop m k xs (omega arith))

  pub take-drop_eq : (m : ℕ) (xs : List A) → take m xs ++ drop m xs ≡ xs
  take-drop_eq zero xs = refl
  take-drop_eq (suc m) [] = refl
  take-drop_eq (suc m) (x ∷ xs) = ap (◌∷◌ x) (take-drop_eq m xs)

  drop-nil : (k : ℕ) → drop {A = A} k [] ≡ []
  drop-nil zero = refl
  drop-nil (suc k) = refl

  drop-sum : (p k : ℕ) (xs : List A) → drop (p + k) xs ≡ drop k (drop p xs)
  drop-sum zero k xs = ap (λ i. drop i xs) (omega arith)
  drop-sum (suc p) k [] = drop-nil (suc p + k) ∙ sym (drop-nil k)
  drop-sum (suc p) k (x ∷ xs) = ap (λ i. drop i (x ∷ xs)) (suc_plus p k) ∙ drop-sum p k xs

  drop-length : (m : ℕ) (xs : List A) → drop (length (take m xs)) xs ≡ drop m xs
  drop-length zero xs = refl
  drop-length (suc m) [] = refl
  drop-length (suc m) (x ∷ xs) = drop-length m xs

  pub drop-read :
      (p m : ℕ) (xs : List A) → drop (p + length (take m (drop p xs))) xs ≡ drop m (drop p xs)
  drop-read p m xs = drop-sum p (length (take m (drop p xs))) xs ∙ drop-length m (drop p xs)

  pub length-drop : (p : ℕ) (xs : List A) → length (drop p xs) ≡ length xs - p
  length-drop zero xs = omega arith
  length-drop (suc p) [] = omega arith
  length-drop (suc p) (x ∷ xs) = omega (arith, length-drop p xs)

  pub length-take : (m : ℕ) (xs : List A) → length (take m xs) ≤ m
  length-take zero xs = omega arith
  length-take (suc m) [] = omega arith
  length-take (suc m) (x ∷ xs) = omega (arith, length-take m xs)

  pub length-nil : (xs : List A) → length xs ≤ 0 → xs ≡ []
  length-nil [] h = refl
  length-nil (x ∷ xs) h = absurd (omega arith)

  take-none : (m k : ℕ) (xs : List A) → 1 ≤ m → length (take m xs) ≡ 0 → take k xs ≡ [] × xs ≡ []
  take-none zero k xs h e = absurd (omega arith)
  take-none (suc m) zero [] h e = (refl, refl)
  take-none (suc m) (suc k) [] h e = (refl, refl)
  take-none (suc m) k (x ∷ xs) h e = absurd (omega arith)

-- Either nothing is left, or a read of at least one byte gives one.
pub gives :
    {A : Type 0}
    → (m k : ℕ) (xs : List A) → 1 ≤ m
    → (take k xs ≡ [] × xs ≡ []) ⊎ (1 ≤ length (take m xs))
gives m k xs h = elim (Bool-cases (leb 1 (length (take m xs)))) [
  | inl e ↦ inr (ground arith)
  | inr e ↦ inl (take-none m k xs h (ground arith))
]
