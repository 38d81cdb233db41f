-- ===== src/Store/Alike.antt =====
-- storage/storage.go: the two listings show the same keys.
use mathlib.Core.Path.{ap₂}
use ocache.Base.{
  Bool, Bool-cases, Bytes, List, Option, [], ap, bytes_eq, false, if-each, if◌then◌else◌, inl, inr,
  is_empty, length, none, refl, some, suc, sym, true, ℕ, ◌++◌, ◌∙◌, ◌∷◌, ◌≡◌,
}
use ocache.Base.Int.{ℤ}
use ocache.Keys.Text.{has_prefix}
use ocache.Merge.Row.{ValueMessage}
use ocache.Merge.Codec.{Codec}
use ocache.Keys.Order.{lex_lt}
use ocache.Wire.Proto.{Protowire}
use ocache.Clean.Strip.{expiry_of_row}
use ocache.Store.Get.{Backing}
use ocache.Store.Listing.{
  KeyValue, Page, Rows, collect, has_passed, is_full, judge_key, judge_key_value, key_value,
  list_key_values_with_pagination, list_keys_with_pagination, list_page, list_start, page_of, seek,
  skip_start, starts_in,
}

abbrev pub expiry_in : Option ValueMessage → Option ℤ
expiry_in none = none
expiry_in (some vm) = some vm.expiry

-- On these rows the reading of the expiry off the wire agrees with the decoder.
abbrev pub Agrees : Protowire → Codec → Rows → Type 0
Agrees pw c [] = Unit
Agrees pw c ((k, v) ∷ rows) = (expiry_of_row pw v ≡ expiry_in (c.unmarshal v)) × Agrees pw c rows

abbrev pub keys_in : List KeyValue → List Bytes
keys_in [] = []
keys_in (e ∷ es) = e.key ∷ keys_in es

keys_in-append :
    (es : List KeyValue) (e : KeyValue) → keys_in (es ++ e ∷ []) ≡ keys_in es ++ e.key ∷ []
keys_in-append [] e = refl
keys_in-append (d ∷ es) e = ap (◌∷◌ d.key) (keys_in-append es e)

length-keys_in : (es : List KeyValue) → length (keys_in es) ≡ length es
length-keys_in [] = refl
length-keys_in (e ∷ es) = ap (λ n. suc n) (length-keys_in es)

module _ (pw : Protowire) (c : Codec) (read : ValueMessage → Backing) (clock : Bytes → ℕ)
    (prefix : Bytes) (limit : ℕ) where
  abbrev judge_entry : Bytes → Bytes → Option KeyValue
  judge_entry k v = judge_key_value read clock k (c.unmarshal v)

  -- The two judgements of a row.
  abbrev Judged : Bytes → Option KeyValue → Option Bytes → Type 0
  Judged k none none = Unit
  Judged k none (some j) = ⊥
  Judged k (some e) none = ⊥
  Judged k (some e) (some j) = (e.key ≡ j) × (j ≡ k)

  Judged-decoded :
      (k : Bytes) (o : Option ValueMessage)
      → Judged k
          (judge_key_value read clock k o)
          (if has_passed (expiry_in o) (clock k) then none else some k)
  unfolding judge_key_value key_value
  Judged-decoded k none = (refl, refl)
  Judged-decoded k (some vm) =
      elim (has_passed (some vm.expiry) (clock k))
        as (λ b.
          Judged k (if b then none else some (key_value read k vm)) (if b then none else some k)) [
            | true ↦ tt
            | false ↦ (refl, refl)
          ]

  judged :
      (k v : Bytes)
      → expiry_of_row pw v ≡ expiry_in (c.unmarshal v)
      → Judged k (judge_entry k v) (judge_key pw clock k v)
  unfolding judge_key
  judged k v h = rw h (Judged-decoded k (c.unmarshal v))

  -- The two loops in step.
  abbrev InStep : List KeyValue × Bytes × Rows → List Bytes × Bytes × Rows → Type 0
  InStep (es, last, rest) (ks, last', rest') = (keys_in es ≡ ks) × (last ≡ last') × (rest ≡ rest')

  InStep-step :
      (rows : Rows) (es : List KeyValue) (ks : List Bytes) (last k : Bytes)
      → ((xs : List KeyValue) (ys : List Bytes) (l : Bytes)
          → keys_in xs ≡ ys
          → InStep
              (collect judge_entry prefix limit rows xs l)
              (collect (judge_key pw clock) prefix limit rows ys l))
      → keys_in es ≡ ks
      → (o : Option KeyValue) (q : Option Bytes) → Judged k o q
      → InStep
          (elim o [
            | none ↦ collect judge_entry prefix limit rows es last
            | some a ↦ collect judge_entry prefix limit rows (es ++ a ∷ []) k
          ])
          (elim q [
            | none ↦ collect (judge_key pw clock) prefix limit rows ks last
            | some a ↦ collect (judge_key pw clock) prefix limit rows (ks ++ a ∷ []) k
          ])
  InStep-step rows es ks last k ih e none none j = ih es ks last e
  InStep-step rows es ks last k ih e none (some x) j = absurd j
  InStep-step rows es ks last k ih e (some a) none j = absurd j
  InStep-step rows es ks last k ih e (some a) (some x) j =
      ih (es ++ a ∷ []) (ks ++ x ∷ []) k (keys_in-append es a ∙ ap₂ (λ xs y. xs ++ y ∷ []) e (j.0))

  collect-InStep :
      (rows : Rows) (es : List KeyValue) (ks : List Bytes) (last : Bytes)
      → Agrees pw c rows
      → keys_in es ≡ ks
      → InStep
          (collect judge_entry prefix limit rows es last)
          (collect (judge_key pw clock) prefix limit rows ks last)
  unfolding collect
  collect-InStep [] es ks last agrees e = (e, refl, refl)
  collect-InStep ((k, v) ∷ rows) es ks last agrees e =
      let same_length : length ks ≡ length es = ap length (sym e) ∙ length-keys_in es in
      elim (Bool-cases (has_prefix prefix k)) [
        | inr lacks ↦ rw lacks (e, refl, refl)
        | inl has ↦
            rw (has, same_length)
              (elim (Bool-cases (is_full limit (length es))) [
                | inl full ↦ rw full (e, refl, refl)
                | inr room ↦ rw room (
                    InStep-step rows es ks last k
                      (λ xs ys l h. collect-InStep rows xs ys l (agrees.1) h) e (judge_entry k v)
                      (judge_key pw clock k v) (judged k v (agrees.0)))
              ])
      ]

  page_of-InStep :
      (x : List KeyValue × Bytes × Rows) (y : List Bytes × Bytes × Rows)
      → InStep x y
      → (keys_in (page_of prefix x).entries ≡ (page_of prefix y).entries)
        × ((page_of prefix x).last_key ≡ (page_of prefix y).last_key)
        × ((page_of prefix x).has_more ≡ (page_of prefix y).has_more)
  unfolding page_of
  page_of-InStep (es, last, rest) (ks, last', rest') (e, l, r) =
      (e, ap₂ (λ s t. if starts_in prefix s then t else []) r l, ap (starts_in prefix) r)

  seek-Agrees : (target : Bytes) (rows : Rows) → Agrees pw c rows → Agrees pw c (seek target rows)
  unfolding seek
  seek-Agrees target [] a = a
  seek-Agrees target ((k, v) ∷ rows) a =
      if-each (Agrees pw c) (lex_lt k target) (seek-Agrees target rows (a.1)) a

  skipped : (start : Bytes) (rows : Rows) → Agrees pw c rows → Agrees pw c (skip_start start rows)
  unfolding skip_start
  skipped start [] a = a
  skipped start ((k, v) ∷ rows) a = if-each (Agrees pw c) (bytes_eq k start) (a.1) a

  list_start-Agrees :
      (start : Bytes) (rows : Rows) → Agrees pw c rows → Agrees pw c (list_start prefix start rows)
  unfolding list_start
  list_start-Agrees start rows a =
      if-each (Agrees pw c) (is_empty start) (seek-Agrees prefix rows a)
        (skipped start (seek start rows) (seek-Agrees start rows a))

-- The same keys, and the same place to go on from; or both have failed.
abbrev pub SamePage : Option (Page KeyValue) → Option (Page Bytes) → Type 0
SamePage none none = Unit
SamePage none (some q) = ⊥
SamePage (some p) none = ⊥
SamePage (some p) (some q) =
    (keys_in p.entries ≡ q.entries) × (p.last_key ≡ q.last_key) × (p.has_more ≡ q.has_more)

-- The listing with values has the keys of the listing of keys, page by page: values that are omitted, cannot
-- be read, or whose row cannot be decoded take no key away. On the rows the expiry read off the wire agrees
-- with the decoder.
pub list_key_values_with_pagination-SamePage :
    (pw : Protowire) (c : Codec) (read : ValueMessage → Backing) (clock : Bytes → ℕ)
    (prefix start : Bytes) (limit : ℕ) (iterator_failed : Bool) (rows : Rows)
    → Agrees pw c rows
    → SamePage
        (list_key_values_with_pagination c read clock prefix start limit iterator_failed rows)
        (list_keys_with_pagination pw clock prefix start limit iterator_failed rows)
unfolding list_key_values_with_pagination list_keys_with_pagination list_page
list_key_values_with_pagination-SamePage pw c read clock prefix start limit true rows a = tt
list_key_values_with_pagination-SamePage pw c read clock prefix start limit false rows a =
    page_of-InStep pw c read clock prefix limit _ _ (
      collect-InStep pw c read clock prefix limit (list_start prefix start rows) [] [] []
        (list_start-Agrees pw c read clock prefix limit start rows a) refl)
