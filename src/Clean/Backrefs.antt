-- ===== src/Clean/Backrefs.antt =====
-- storage/cleaner.go: advanceBackrefTo, the merge of the metadata rows with the back-reference rows, both in
-- the order of the user keys. The iterator is the list of the suffixes that it has still to show, and
-- whether it ends in an error.
use ocache.Base.{
  Bool, Bool-cases, Bytes, List, Option, [], arith, bytes_eq, bytes_eq_iff, false, if◌then◌else◌,
  inl, inr, none, refl, some, subst, sym, true, ◌++◌, ◌||◌, ◌∙◌, ◌∷◌, ◌≡◌,
}
use ocache.Keys.Order.{lex_lt}

-- What the iterator has left, and whether an entry for the key exists: `none` is the iterator's error.
unfoldable pub advance_backref_to : Bool → Bytes → List Bytes → List Bytes × Option Bool
advance_backref_to failed key [] = ([], if failed then none else some false)
advance_backref_to failed key (suffix ∷ it) =
    let rest = advance_backref_to failed key it in
    if lex_lt suffix key
    then rest
    else if bytes_eq suffix key
    then (it, some true)
    else (suffix ∷ it, some false)

abbrev pub member : Bytes → List Bytes → Bool
member k [] = false
member k (j ∷ ks) = bytes_eq k j || member k ks

-- Every key of the list is above the key; and the strict order of a list.
abbrev pub Above : Bytes → List Bytes → Type 0
Above k [] = Unit
Above k (j ∷ ks) = (lex_lt k j ≡ true) × Above k ks

abbrev pub IsSorted : List Bytes → Type 0
IsSorted [] = Unit
IsSorted (k ∷ ks) = Above k ks × IsSorted ks

pub lex_lt_irrefl : (xs : Bytes) → lex_lt xs xs ≡ false
unfolding lex_lt
lex_lt_irrefl [] = refl
lex_lt_irrefl (x ∷ xs) = ground (arith, lex_lt_irrefl xs)

pub lex_lt-ne : (xs ys : Bytes) → lex_lt xs ys ≡ true → bytes_eq ys xs ≡ false
lex_lt-ne xs ys h = elim (Bool-cases (bytes_eq ys xs)) [
  | inr other ↦ other
  | inl same ↦
      let eq : ys ≡ xs = (bytes_eq_iff ys xs).0 same in
      let no : lex_lt xs xs ≡ false = lex_lt_irrefl xs in absurd (cc)
]

pub bytes_eq-lex_lt : (xs ys : Bytes) → lex_lt xs ys ≡ true → bytes_eq xs ys ≡ false
bytes_eq-lex_lt xs ys h = elim (Bool-cases (bytes_eq xs ys)) [
  | inr other ↦ other
  | inl same ↦
      let eq : xs ≡ ys = (bytes_eq_iff xs ys).0 same in
      let no : lex_lt ys ys ≡ false = lex_lt_irrefl ys in absurd (cc)
]

pub lex_lt_trans :
    (xs ys zs : Bytes) → lex_lt xs ys ≡ true → lex_lt ys zs ≡ true → lex_lt xs zs ≡ true
unfolding lex_lt
lex_lt_trans xs [] zs h g = absurd (cc)
lex_lt_trans [] (y ∷ ys) [] h g = absurd (cc)
lex_lt_trans [] (y ∷ ys) (z ∷ zs) h g = refl
lex_lt_trans (x ∷ xs) (y ∷ ys) [] h g = absurd (cc)
lex_lt_trans (x ∷ xs) (y ∷ ys) (z ∷ zs) h g = ground (arith, lex_lt_trans xs ys zs)

pub lex_lt_total :
    (xs ys : Bytes) → lex_lt xs ys ≡ false → bytes_eq xs ys ≡ false → lex_lt ys xs ≡ true
unfolding lex_lt bytes_eq
lex_lt_total [] [] h g = absurd (cc)
lex_lt_total [] (y ∷ ys) h g = absurd (cc)
lex_lt_total (x ∷ xs) [] h g = refl
lex_lt_total (x ∷ xs) (y ∷ ys) h g = ground (arith, lex_lt_total xs ys)

pub Above-trans : (j k : Bytes) (ks : List Bytes) → lex_lt j k ≡ true → Above k ks → Above j ks
Above-trans j k [] h a = tt
Above-trans j k (l ∷ ks) h a = (lex_lt_trans j k l h (a.0), Above-trans j k ks h (a.1))

-- A key above all of a list's is none of them.
pub member-Above : (k : Bytes) (ks : List Bytes) → Above k ks → member k ks ≡ false
member-Above k [] a = refl
member-Above k (j ∷ ks) a = rw (bytes_eq-lex_lt k j (a.0)) (member-Above k ks (a.1))

-- What the iterator's answer says of a key that is or is not in the list: an error says nothing.
abbrev pub Answers : Bool → Option Bool → Type 0
Answers present none = Unit
Answers present (some covered) = present ≡ covered

-- The iterator shows `it`; `beyond` is what an error hides. The answer is right, and above the key nothing
-- is lost.
abbrev pub Advanced : Bytes → List Bytes → List Bytes → List Bytes × Option Bool → Type 0
Advanced key it beyond r =
    Answers (member key (it ++ beyond)) (r.1)
    × IsSorted (r.0 ++ beyond)
    × ((k : Bytes) → lex_lt key k ≡ true → member k (r.0 ++ beyond) ≡ member k (it ++ beyond))

module _ (failed : Bool) (beyond : List Bytes) (whole : failed ≡ false → beyond ≡ []) where
  advance_ended :
      (key : Bytes) → IsSorted beyond → Advanced key [] beyond (advance_backref_to failed key [])
  unfolding advance_backref_to
  advance_ended key sorted = elim (Bool-cases failed) [
    | inl broken ↦ rw broken (tt, sorted, λ k h. refl)
    | inr fine ↦ rw fine (rw (whole fine) refl, sorted, λ k h. refl)
  ]

  advance_past :
      (key suffix : Bytes) (it : List Bytes) (r : List Bytes × Option Bool)
      → lex_lt suffix key ≡ true
      → Advanced key it beyond r
      → Advanced key (suffix ∷ it) beyond r
  advance_past key suffix it (left, none) below (answer, sorted, same) = (
    tt,
    sorted,
    λ k h. same k h ∙ sym (rw (lex_lt-ne suffix k (lex_lt_trans suffix key k below h)) refl),
  )
  advance_past key suffix it (left, some c) below (answer, sorted, same) = (
    rw (lex_lt-ne suffix key below) answer,
    sorted,
    λ k h. same k h ∙ sym (rw (lex_lt-ne suffix k (lex_lt_trans suffix key k below h)) refl),
  )

  pub advance_backref_to-Advanced :
      (key : Bytes) (it : List Bytes)
      → IsSorted (it ++ beyond)
      → Advanced key it beyond (advance_backref_to failed key it)
  unfolding advance_backref_to
  advance_backref_to-Advanced key [] sorted = advance_ended key sorted
  advance_backref_to-Advanced key (suffix ∷ it) sorted =
      let ih : Advanced key it beyond (advance_backref_to failed key it) =
        advance_backref_to-Advanced key it (sorted.1) in
      elim (Bool-cases (lex_lt suffix key)) [
        | inl below ↦ rw below (advance_past key suffix it _ below ih)
        | inr up ↦ elim (Bool-cases (bytes_eq suffix key)) [
          | inl same ↦
              let eq : suffix ≡ key = (bytes_eq_iff suffix key).0 same in
              rw (up, same)
                (
                  rw ((bytes_eq_iff key suffix).1 (sym eq)) refl,
                  sorted.1,
                  λ k h.
                      sym
                        (rw (subst (λ x. bytes_eq k x ≡ false) (sym eq) (lex_lt-ne key k h)) refl),
                )
          | inr other ↦
              let above : lex_lt key suffix ≡ true = lex_lt_total suffix key up other in
              rw (up, other)
                (
                  member-Above key (suffix ∷ it ++ beyond)
                      (above, Above-trans key suffix (it ++ beyond) above (sorted.0)),
                  sorted,
                  λ k h. refl,
                )
        ]
      ]
