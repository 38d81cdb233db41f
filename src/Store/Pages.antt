-- ===== src/Store/Pages.antt =====
-- storage/storage.go: the pages of the listings, followed from one to the next.
use mathlib.Core.Path.{ap₂}
use mathlib.Core.List.{append-nil, append_assoc}
use ocache.Base.{
  Bool-cases, Bytes, List, Option, Option-cases, [], ap, arith, bytes_eq_refl, false, if◌then◌else◌,
  inl, inr, is_empty, length, length-append, none, refl, some, subst, suc, sym, true, zero, ℕ, ◌++◌,
  ◌+◌, ◌<◌, ◌∙◌, ◌∷◌, ◌≡◌, ◌⊎◌,
}
use ocache.Keys.Text.{has_prefix}
use ocache.Keys.Order.{lex_lt}
use ocache.Clean.Backrefs.{Above, IsSorted, lex_lt_irrefl, lex_lt_trans}
use ocache.Store.Listing.{
  Page, Rows, collect, is_full, list_page, list_start, page_of, seek, skip_start, starts_in,
}

abbrev pub keys_of : Rows → List Bytes
keys_of [] = []
keys_of ((k, v) ∷ rows) = k ∷ keys_of rows

-- No key is empty: a page that ended with the empty key would start the listing again.
abbrev pub Named : Rows → Type 0
Named [] = Unit
Named ((k, v) ∷ rows) = (is_empty k ≡ false) × Named rows

lex_lt-has_prefix : (k p : Bytes) → lex_lt k p ≡ true → has_prefix p k ≡ false
unfolding lex_lt has_prefix
lex_lt-has_prefix k [] h = absurd (cc)
lex_lt-has_prefix [] (c ∷ p) h = refl
lex_lt-has_prefix (x ∷ k) (c ∷ p) h = ground (arith, lex_lt-has_prefix k p)

-- Behind a key that is past the prefix and does not have it no key has it.
has_prefix-past :
    (p k j : Bytes)
    → lex_lt k p ≡ false
    → has_prefix p k ≡ false
    → lex_lt k j ≡ true
    → has_prefix p j ≡ false
unfolding lex_lt has_prefix
has_prefix-past [] k j h g l = absurd (cc)
has_prefix-past (c ∷ p) [] j h g l = absurd (cc)
has_prefix-past (c ∷ p) (x ∷ k) [] h g l = refl
has_prefix-past (c ∷ p) (x ∷ k) (y ∷ j) h g l = ground (arith, has_prefix-past p k j)

lex_lt-up : (k j p : Bytes) → lex_lt k p ≡ false → lex_lt k j ≡ true → lex_lt j p ≡ false
lex_lt-up k j p h l = elim (Bool-cases (lex_lt j p)) [
  | inr up ↦ up
  | inl low ↦ let lower = lex_lt_trans k j p l low in absurd (cc)
]

Above-mid :
    (a k v : Bytes) (before behind : Rows)
    → Above a (keys_of (before ++ (k, v) ∷ behind))
    → lex_lt a k ≡ true
Above-mid a k v [] behind h = h.0
Above-mid a k v ((j, w) ∷ before) behind h = Above-mid a k v before behind (h.1)

Named-mid :
    (k v : Bytes) (before behind : Rows) → Named (before ++ (k, v) ∷ behind) → is_empty k ≡ false
Named-mid k v [] behind h = h.0
Named-mid k v ((j, w) ∷ before) behind h = Named-mid k v before behind (h.1)

-- The start of the next page is the row behind the last key.
seek-mid :
    (k v : Bytes) (before behind : Rows)
    → IsSorted (keys_of (before ++ (k, v) ∷ behind))
    → seek k (before ++ (k, v) ∷ behind) ≡ (k, v) ∷ behind
unfolding seek
seek-mid k v [] behind s = rw (lex_lt_irrefl k) refl
seek-mid k v ((j, w) ∷ before) behind s =
    rw (Above-mid j k v before behind (s.0)) (seek-mid k v before behind (s.1))

list_start-mid :
    (prefix k v : Bytes) (before behind : Rows)
    → is_empty k ≡ false
    → IsSorted (keys_of (before ++ (k, v) ∷ behind))
    → list_start prefix k (before ++ (k, v) ∷ behind) ≡ behind
unfolding list_start skip_start
list_start-mid prefix k v before behind named s =
    rw (named, seek-mid k v before behind s, bytes_eq_refl k) refl

seek-suffix : (target : Bytes) (rows : Rows) → (before : Rows) × (rows ≡ before ++ seek target rows)
unfolding seek
seek-suffix target [] = ([], refl)
seek-suffix target ((k, v) ∷ rows) =
    let (before, e) = seek-suffix target rows in
    elim (Bool-cases (lex_lt k target)) [
      | inl low ↦ ((k, v) ∷ before, rw low (ap (◌∷◌ (k, v)) e))
      | inr up ↦ ([], rw up refl)
    ]

abbrev pub put_front : {A : Type 0} → Option A → List A → List A
put_front none rest = rest
put_front (some a) rest = a ∷ rest

module _ {A : Type 0} (judge : Bytes → Bytes → Option A) (prefix : Bytes) where
  -- What a listing without end shows from these rows on.
  abbrev walk : Rows → List A
  walk [] = []
  walk ((k, v) ∷ rows) =
      let rest = walk rows in if has_prefix prefix k then put_front (judge k v) rest else []

  -- The rows with the prefix that are not passed over.
  abbrev pub matching : Rows → List A
  matching [] = []
  matching ((k, v) ∷ rows) =
      let rest = matching rows in if has_prefix prefix k then put_front (judge k v) rest else rest

  matching-past :
      (k : Bytes) (rows : Rows)
      → lex_lt k prefix ≡ false
      → has_prefix prefix k ≡ false
      → Above k (keys_of rows)
      → matching rows ≡ []
  matching-past k [] h g a = refl
  matching-past k ((j, v) ∷ rows) h g a =
      rw (has_prefix-past prefix k j h g (a.0)) (matching-past k rows h g (a.1))

  -- The first row is not below the prefix.
  abbrev IsUp : Rows → Type 0
  IsUp [] = Unit
  IsUp ((k, v) ∷ rows) = lex_lt k prefix ≡ false

  IsUp-tail :
      (k : Bytes) (rows : Rows) → lex_lt k prefix ≡ false → Above k (keys_of rows) → IsUp rows
  IsUp-tail k [] up a = tt
  IsUp-tail k ((j, w) ∷ rows) up a = lex_lt-up k j prefix up (a.0)

  walk-matching : (rows : Rows) → IsSorted (keys_of rows) → IsUp rows → walk rows ≡ matching rows
  walk-matching [] s up = refl
  walk-matching ((k, v) ∷ rows) s up =
      let ih : walk rows ≡ matching rows = walk-matching rows (s.1) (IsUp-tail k rows up (s.0)) in
      elim (Bool-cases (has_prefix prefix k)) [
        | inl has ↦ rw has (ap (put_front (judge k v)) ih)
        | inr lacks ↦ rw lacks (sym (matching-past k rows up lacks (s.0)))
      ]

  walk-seek : (rows : Rows) → IsSorted (keys_of rows) → walk (seek prefix rows) ≡ matching rows
  unfolding seek
  walk-seek [] s = refl
  walk-seek ((k, v) ∷ rows) s = elim (Bool-cases (lex_lt k prefix)) [
    | inl low ↦ rw (low, lex_lt-has_prefix k prefix low) (walk-seek rows (s.1))
    | inr up ↦ rw up (walk-matching ((k, v) ∷ rows) s up)
  ]

  -- What a page is of the rows from its start on: all that there is to list, or a part that ends with the row
  -- of the last key.
  abbrev Cut : Rows → List A → List A × Bytes × Rows → Type 0
  Cut rows acc (entries, last, rest) =
      ((starts_in prefix rest ≡ false) × (entries ≡ acc ++ walk rows))
      ⊎ ((starts_in prefix rest ≡ true)
          × ((before : Rows) × (v : Bytes) × (behind : Rows) × (xs : List A) × (rows
                ≡ before ++ (last, v) ∷ behind)
              × (entries ≡ acc ++ xs)
              × (walk rows ≡ xs ++ walk behind)))

  Cut-passed :
      (k v : Bytes) (rows : Rows) (acc : List A) (r : List A × Bytes × Rows)
      → has_prefix prefix k ≡ true
      → judge k v ≡ none
      → Cut rows acc r
      → Cut ((k, v) ∷ rows) acc r
  Cut-passed k v rows acc r has passed (inl (shut, all)) = inl (shut, rw (has, passed) all)
  Cut-passed k v rows acc r has passed (inr (more, (before, w, behind, xs, split, es, walked))) =
      inr
        (more, ((k, v) ∷ before, w, behind, xs, ap (◌∷◌ (k, v)) split, es, rw (has, passed) walked))

  Cut-taken :
      (k v : Bytes) (a : A) (rows : Rows) (acc : List A) (r : List A × Bytes × Rows)
      → has_prefix prefix k ≡ true
      → judge k v ≡ some a
      → Cut rows (acc ++ a ∷ []) r
      → Cut ((k, v) ∷ rows) acc r
  Cut-taken k v a rows acc r has taken (inl (shut, all)) =
      inl (shut, rw (has, taken) (all ∙ append_assoc acc (a ∷ []) (walk rows)))
  Cut-taken k v a rows acc r has taken (inr (more, (before, w, behind, xs, split, es, walked))) =
      inr (
        more,
        (
          (k, v) ∷ before,
          w,
          behind,
          a ∷ xs,
          ap (◌∷◌ (k, v)) split,
          es ∙ append_assoc acc (a ∷ []) xs,
          rw (has, taken) (ap (◌∷◌ a) walked),
        ),
      )

  walk-shut : (rows : Rows) → starts_in prefix rows ≡ false → walk rows ≡ []
  walk-shut [] h = refl
  walk-shut ((k, v) ∷ rows) h = rw h refl

  collect_full :
      (limit : ℕ) (rows : Rows) (acc : List A) (last : Bytes)
      → is_full limit (length acc) ≡ true
      → collect judge prefix limit rows acc last ≡ (acc, last, rows)
  unfolding collect
  collect_full limit [] acc last h = refl
  collect_full limit ((k, v) ∷ rows) acc last h = elim (Bool-cases (has_prefix prefix k)) [
    | inl has ↦ rw (has, h) refl
    | inr lacks ↦ rw lacks refl
  ]

  -- The page is full behind this row.
  Cut-last :
      (k v : Bytes) (a : A) (rows : Rows) (acc : List A)
      → has_prefix prefix k ≡ true
      → judge k v ≡ some a
      → Cut ((k, v) ∷ rows) acc (acc ++ a ∷ [], k, rows)
  Cut-last k v a rows acc has taken = elim (Bool-cases (starts_in prefix rows)) [
    | inr shut ↦ inl (shut, rw (has, taken) (ap (λ t. acc ++ a ∷ t) (sym (walk-shut rows shut))))
    | inl more ↦ inr (more, ([], v, rows, a ∷ [], refl, refl, rw (has, taken) refl))
  ]

  collect_passed :
      (limit : ℕ) (k v : Bytes) (rows : Rows) (acc : List A) (last : Bytes)
      → has_prefix prefix k ≡ true
      → is_full limit (length acc) ≡ false
      → judge k v ≡ none
      → collect judge prefix limit ((k, v) ∷ rows) acc last
        ≡ collect judge prefix limit rows acc last
  unfolding collect
  collect_passed limit k v rows acc last has room passed = rw (has, room, passed) refl

  collect_taken :
      (limit : ℕ) (k v : Bytes) (a : A) (rows : Rows) (acc : List A) (last : Bytes)
      → has_prefix prefix k ≡ true
      → is_full limit (length acc) ≡ false
      → judge k v ≡ some a
      → collect judge prefix limit ((k, v) ∷ rows) acc last
        ≡ collect judge prefix limit rows (acc ++ a ∷ []) k
  unfolding collect
  collect_taken limit k v a rows acc last has room taken = rw (has, room, taken) refl

  collect-Cut :
      (limit : ℕ) (rows : Rows) (acc : List A) (last : Bytes)
      → is_full limit (length acc) ≡ false
      → Cut rows acc (collect judge prefix limit rows acc last)
  unfolding collect
  collect-Cut limit [] acc last h = inl (refl, sym (append-nil acc))
  collect-Cut limit ((k, v) ∷ rows) acc last h = elim (Bool-cases (has_prefix prefix k)) [
    | inr lacks ↦ rw lacks (inl (lacks, sym (append-nil acc)))
    | inl has ↦ elim (Option-cases (judge k v)) [
      | inl passed ↦
          subst (Cut ((k, v) ∷ rows) acc)
            (sym (collect_passed limit k v rows acc last has h passed))
            (Cut-passed k v rows acc _ has passed (collect-Cut limit rows acc last h))
      | inr (a, taken) ↦
          let next : Cut ((k, v) ∷ rows) acc (collect judge prefix limit rows (acc ++ a ∷ []) k) =
            elim (Bool-cases (is_full limit (length (acc ++ a ∷ [])))) [
              | inl full ↦
                  subst (Cut ((k, v) ∷ rows) acc)
                    (sym (collect_full limit rows (acc ++ a ∷ []) k full))
                    (Cut-last k v a rows acc has taken)
              | inr room ↦
                  Cut-taken k v a rows acc _ has taken
                    (collect-Cut limit rows (acc ++ a ∷ []) k room)
            ] in
          subst (Cut ((k, v) ∷ rows) acc)
            (sym (collect_taken limit k v a rows acc last has h taken)) next
    ]
  ]

  -- Without a limit the loop ends only behind the last row with the prefix.
  collect_all :
      (rows : Rows) (acc : List A) (last : Bytes)
      → ((collect judge prefix 0 rows acc last).0 ≡ acc ++ walk rows)
        × (starts_in prefix ((collect judge prefix 0 rows acc last).2) ≡ false)
  unfolding collect
  collect_all [] acc last = (sym (append-nil acc), refl)
  collect_all ((k, v) ∷ rows) acc last = elim (Bool-cases (has_prefix prefix k)) [
    | inr lacks ↦ rw lacks (sym (append-nil acc), lacks)
    | inl has ↦ elim (Option-cases (judge k v)) [
      | inl passed ↦ rw (has, passed) (collect_all rows acc last)
      | inr (a, taken) ↦
          let next = collect_all rows (acc ++ a ∷ []) k in
          rw (has, taken) (next.0 ∙ append_assoc acc (a ∷ []) (walk rows), next.1)
    ]
  ]

  -- A client that asks for the next page from the last key on as long as there is one.
  unfoldable pub follow_pages : ℕ → Rows → ℕ → Bytes → List A
  unfolding list_page
  follow_pages limit rows zero start = []
  follow_pages limit rows (suc fuel) start =
      let page : Page A = list_page judge prefix start limit rows in
      let rest = follow_pages limit rows fuel page.last_key in
      if page.has_more then page.entries ++ rest else page.entries

  follow_from :
      (limit : ℕ) (rows before tail : Rows) (fuel : ℕ) (start : Bytes)
      → 0 < limit
      → IsSorted (keys_of rows)
      → Named rows
      → rows ≡ before ++ tail
      → list_start prefix start rows ≡ tail
      → length tail < fuel
      → follow_pages limit rows fuel start ≡ walk tail
  unfolding follow_pages list_page page_of
  follow_from limit rows before tail zero start pos_ s n split at f = absurd (omega arith)
  follow_from limit rows before tail (suc fuel) start pos_ s n split at f =
      let room : is_full limit 0 ≡ false = ground arith in
      rw at (elim (collect-Cut limit tail [] [] room) [
        | inl (shut, all) ↦ rw (shut, follow_pages) all
        | inr (more, (mid, v, behind, xs, cut, es, walked)) ↦
            let k : Bytes = (collect judge prefix limit tail [] []).1 in
            let whole : rows ≡ (before ++ mid) ++ (k, v) ∷ behind =
              split ∙ (ap (◌++◌ before) cut ∙ sym (append_assoc before mid ((k, v) ∷ behind))) in
            let sorted : IsSorted (keys_of ((before ++ mid) ++ (k, v) ∷ behind)) =
              subst (λ r. IsSorted (keys_of r)) whole s in
            let named : is_empty k ≡ false =
              Named-mid k v (before ++ mid) behind (subst Named whole n) in
            let next : list_start prefix k rows ≡ behind =
              subst (λ r. list_start prefix k r ≡ behind) (sym whole)
                (list_start-mid prefix k v (before ++ mid) behind named sorted) in
            let split_next : rows ≡ (before ++ (mid ++ (k, v) ∷ [])) ++ behind =
              split
              ∙ (ap (◌++◌ before) (cut ∙ sym (append_assoc mid ((k, v) ∷ []) behind))
                  ∙ sym (append_assoc before (mid ++ (k, v) ∷ []) behind)) in
            let shorter : length behind < fuel =
              let e : length tail ≡ length mid + suc (length behind) =
                ap length cut ∙ length-append mid ((k, v) ∷ behind) in
              omega arith in
            let ih =
              follow_from limit rows (before ++ (mid ++ (k, v) ∷ [])) behind fuel k pos_ s n
                split_next next shorter in
            rw more (ap₂ (◌++◌) es ih ∙ sym walked)
      ])

  -- A client that follows the pages of a positive limit from the start sees every row with the prefix that
  -- is not passed over, each once and in the order of the keys, and is done after at most one page for each
  -- row and one more; a listing without a limit shows the same at once. The keys are in strict order and not
  -- empty, the rows do not change between the pages, and a row is judged alike on every page.
  pub follow_pages-matching :
      (limit : ℕ) (rows : Rows)
      → 0 < limit
      → IsSorted (keys_of rows)
      → Named rows
      → (follow_pages limit rows (suc (length rows)) [] ≡ matching rows)
        × ((list_page judge prefix [] 0 rows).entries ≡ matching rows)
        × ((list_page judge prefix [] 0 rows).has_more ≡ false)
  unfolding list_start list_page page_of
  follow_pages-matching limit rows pos_ s n =
      let (before, split) = seek-suffix prefix rows in
      let short : length (seek prefix rows) < suc (length rows) =
        let e : length rows ≡ length before + length (seek prefix rows) =
          ap length split ∙ length-append before (seek prefix rows) in
        omega arith in
      let whole = collect_all (seek prefix rows) [] [] in
      (
        follow_from limit rows before (seek prefix rows) (suc (length rows)) [] pos_ s n split refl
              short
            ∙ walk-seek rows s,
        whole.0 ∙ walk-seek rows s,
        whole.1,
      )
