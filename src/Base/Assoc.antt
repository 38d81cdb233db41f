-- ===== src/Base/Assoc.antt =====
-- Go's maps with string keys, as association lists: a stored key hides what is behind it.
use mathlib.Core.Path.{◌≡◌, refl, sym, subst, ◌∙◌}
use mathlib.Core.Logic.{inl, inr}
use mathlib.Core.Bool.{false}
use mathlib.Core.Option.{Option, none, some}
use mathlib.Core.List.{List, [], ◌∷◌}
use ocache.Base.Lists.{Bytes, bytes_eq, bytes_eq_iff}
use ocache.Base.Tests.{Bool-cases, if◌then◌else◌}

module _ {ℓ} {V : Type ℓ} where
  unfoldable pub lookup : Bytes → List (Bytes × V) → Option V
  lookup k [] = none
  lookup k ((l, v) ∷ m) = if bytes_eq k l then some v else lookup k m

  unfoldable pub remove : Bytes → List (Bytes × V) → List (Bytes × V)
  remove k [] = []
  remove k ((l, v) ∷ m) = let rest = remove k m in if bytes_eq k l then rest else (l, v) ∷ rest

  abbrev pub insert : Bytes → V → List (Bytes × V) → List (Bytes × V)
  insert k v m = (k, v) ∷ remove k m

  pub lookup-remove :
      (j k : Bytes) (m : List (Bytes × V))
      → lookup j (remove k m) ≡ (if bytes_eq j k then none else lookup j m)
  unfolding lookup remove
  lookup-remove j k [] = elim (Bool-cases (bytes_eq j k)) [ inl e ↦ rw e refl | inr e ↦ rw e refl ]
  lookup-remove j k ((l, v) ∷ m) =
      let ih = lookup-remove j k m in
      elim (Bool-cases (bytes_eq k l)) [
        | inl e ↦ elim (Bool-cases (bytes_eq j k)) [
          | inl f ↦ rw (e, ih, f) refl
          | inr f ↦
              let other : bytes_eq j l ≡ false =
                subst (λ y. bytes_eq j y ≡ false) ((bytes_eq_iff k l).0 e) f in
              rw (e, ih, f, other) refl
        ]
        | inr e ↦ elim (Bool-cases (bytes_eq j k)) [
          | inl f ↦
              let other : bytes_eq j l ≡ false =
                subst (λ y. bytes_eq y l ≡ false) (sym ((bytes_eq_iff j k).0 f)) e in
              rw (e, other, ih, f) refl
          | inr f ↦ rw (e, ih, f) refl
        ]
      ]

  pub lookup-insert :
      (j k : Bytes) (v : V) (m : List (Bytes × V))
      → lookup j (insert k v m) ≡ (if bytes_eq j k then some v else lookup j m)
  unfolding lookup
  lookup-insert j k v m = elim (Bool-cases (bytes_eq j k)) [
    | inl e ↦ rw e refl
    | inr e ↦ rw e (lookup-remove j k m ∙ rw e refl)
  ]
